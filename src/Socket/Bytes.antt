-- ===== src/Socket/Bytes.antt =====
-- memcpy between numbers and an app's buffer (src/wamr_ext_lib/WasiSocketExt.cpp). The host is little
-- endian, as a WebAssembly memory is.
use wamr_ext.Prelude.{
  List, [], ap, arith, length, refl, suc, zero, ℕ, ◌%◌, ◌*◌, ◌++◌, ◌+◌, ◌/◌, ◌<◌, ◌^◌, ◌∷◌, ◌≡◌,
  ◌≤◌,
}
use wamr_ext.Prelude.Text.{bytes}
use wamr_ext.Socket.Address.{drop}

-- The n bytes of a number.
unfoldable pub to_le : ℕ → ℕ → List ℕ
to_le zero v = []
to_le (suc n) v = v % 256 ∷ to_le n (v / 256)

-- The number of the first n bytes; a buffer that is shorter is read as if zeros followed.
unfoldable pub of_le : ℕ → List ℕ → ℕ
of_le zero bs = 0
of_le (suc n) [] = 0
of_le (suc n) (b ∷ bs) = b + 256 * of_le n bs

pub of_le-to_le : (n v : ℕ) (rest : List ℕ) → v < 256 ^ n → of_le n (to_le n v ++ rest) ≡ v
unfolding of_le to_le
of_le-to_le zero v rest h = omega arith
of_le-to_le (suc n) v rest h =
    let p : 256 ^ suc n ≡ 256 * 256 ^ n = omega arith in
    let small : v / 256 < 256 ^ n = omega (arith, p) in
    omega (arith, of_le-to_le n (v / 256) rest small)

pub length-to_le : (n v : ℕ) → length (to_le n v) ≡ n
unfolding to_le
length-to_le zero v = refl
length-to_le (suc n) v = omega (arith, length-to_le n (v / 256))

-- memcpy(buf, bytes, len), where len is not above the lengths of both.
unfoldable pub copy_over : ℕ → List ℕ → List ℕ → List ℕ
copy_over zero bytes buf = buf
copy_over (suc n) [] buf = buf
copy_over (suc n) (b ∷ bytes) [] = []
copy_over (suc n) (b ∷ bytes) (x ∷ buf) = b ∷ copy_over n bytes buf

pub length-copy_over : (n : ℕ) (bytes buf : List ℕ) → length (copy_over n bytes buf) ≡ length buf
unfolding copy_over
length-copy_over zero bytes buf = refl
length-copy_over (suc n) [] buf = refl
length-copy_over (suc n) (b ∷ bytes) [] = refl
length-copy_over (suc n) (b ∷ bytes) (x ∷ buf) = omega (arith, length-copy_over n bytes buf)

-- What lies behind the bytes stays.
pub copy_over_all :
    (bytes buf : List ℕ)
    → length bytes ≤ length buf
    → copy_over (length bytes) bytes buf ≡ bytes ++ drop (length bytes) buf
unfolding copy_over
copy_over_all [] buf h = refl
copy_over_all (b ∷ bytes) [] h = absurd (omega arith)
copy_over_all (b ∷ bytes) (x ∷ buf) h = ap (◌∷◌ b) (copy_over_all bytes buf (omega arith))
