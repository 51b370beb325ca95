-- ===== src/Verification/Texts.antt =====
-- The texts of the failures that src/verification/worker.rs makes itself, as bytes.
use pulsar_verifier.Prelude.{ℕ, List, [], ◌∷◌}

abbrev pub unsupported_code : List ℕ
unsupported_code =
    b'u' ∷ b'n' ∷ b's' ∷ b'u' ∷ b'p' ∷ b'p' ∷ b'o' ∷ b'r' ∷ b't' ∷ b'e' ∷ b'd' ∷ b'_' ∷ b'p' ∷ b'r'
    ∷ b'o' ∷ b'o' ∷ b'f' ∷ b'_' ∷ b't' ∷ b'y' ∷ b'p' ∷ b'e' ∷ []

abbrev pub unsupported_message : List ℕ
unsupported_message =
    b'n' ∷ b'o' ∷ b' ' ∷ b'v' ∷ b'e' ∷ b'r' ∷ b'i' ∷ b'f' ∷ b'i' ∷ b'e' ∷ b'r' ∷ b' ' ∷ b'b' ∷ b'a'
    ∷ b'c' ∷ b'k' ∷ b'e' ∷ b'n' ∷ b'd' ∷ b' ' ∷ b'i' ∷ b's' ∷ b' ' ∷ b'r' ∷ b'e' ∷ b'g' ∷ b'i'
    ∷ b's' ∷ b't' ∷ b'e' ∷ b'r' ∷ b'e' ∷ b'd' ∷ b' ' ∷ b'f' ∷ b'o' ∷ b'r' ∷ b' ' ∷ b't' ∷ b'h'
    ∷ b'i' ∷ b's' ∷ b' ' ∷ b'p' ∷ b'r' ∷ b'o' ∷ b'o' ∷ b'f' ∷ b' ' ∷ b't' ∷ b'y' ∷ b'p' ∷ b'e' ∷ []

abbrev pub panicked_code : List ℕ
panicked_code =
    b'v' ∷ b'e' ∷ b'r' ∷ b'i' ∷ b'f' ∷ b'i' ∷ b'e' ∷ b'r' ∷ b'_' ∷ b'p' ∷ b'a' ∷ b'n' ∷ b'i' ∷ b'c'
    ∷ b'k' ∷ b'e' ∷ b'd' ∷ []

abbrev pub panicked_message : List ℕ
panicked_message =
    b'v' ∷ b'e' ∷ b'r' ∷ b'i' ∷ b'f' ∷ b'i' ∷ b'e' ∷ b'r' ∷ b' ' ∷ b'b' ∷ b'a' ∷ b'c' ∷ b'k' ∷ b'e'
    ∷ b'n' ∷ b'd' ∷ b' ' ∷ b'p' ∷ b'a' ∷ b'n' ∷ b'i' ∷ b'c' ∷ b'k' ∷ b'e' ∷ b'd' ∷ []

abbrev pub timeout_code : List ℕ
timeout_code =
    b'v' ∷ b'e' ∷ b'r' ∷ b'i' ∷ b'f' ∷ b'i' ∷ b'c' ∷ b'a' ∷ b't' ∷ b'i' ∷ b'o' ∷ b'n' ∷ b'_' ∷ b't'
    ∷ b'i' ∷ b'm' ∷ b'e' ∷ b'o' ∷ b'u' ∷ b't' ∷ []

abbrev pub timeout_message : List ℕ
timeout_message =
    b'v' ∷ b'e' ∷ b'r' ∷ b'i' ∷ b'f' ∷ b'i' ∷ b'c' ∷ b'a' ∷ b't' ∷ b'i' ∷ b'o' ∷ b'n' ∷ b' ' ∷ b'a'
    ∷ b't' ∷ b't' ∷ b'e' ∷ b'm' ∷ b'p' ∷ b't' ∷ b' ' ∷ b't' ∷ b'i' ∷ b'm' ∷ b'e' ∷ b'd' ∷ b' '
    ∷ b'o' ∷ b'u' ∷ b't' ∷ []
