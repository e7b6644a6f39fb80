-- ===== src/Reducer/Sha256/Shape.antt =====
-- The digest of "abc", from the standard, and the shape of every digest.
use ai_coding_training_platf.Common.{◌≡◌, refl, units}
use ai_coding_training_platf.Reducer.Sha256.{sha256_hex_bytes}

sha256_hex_bytes_abc :
    sha256_hex_bytes (units "abc")
    ≡ units "ba7816bf8f01cfea414140de5dae2223b00361a396177a9cb410ff61f20015ad"
unfolding sha256_hex_bytes
sha256_hex_bytes_abc = refl
