-- ===== src/Util/Bytes.antt =====
-- ConvertToBytes of internal/util/util.go: a size with its unit in bytes, in 64-bit arithmetic.
use libvirt_operator.Prelude.{
  ℕ, ◌*◌, ◌%◌, ◌^◌, ◌≤◌, ◌<◌, String, List, [], ◌∷◌, ◌≡◌, refl, arith, if◌then◌else◌, str_eq,
}

abbrev pub u64_mod : ℕ
u64_mod = 2 ^ 64

-- The map `unitConversion`; a unit that it lacks has the zero value.
abbrev unit_conversion : List (String × ℕ)
unit_conversion =
    ("", 1)
    ∷ ("B", 1)
    ∷ ("bytes", 1)
    ∷ ("KB", 1000)
    ∷ ("K", 1024)
    ∷ ("KiB", 1024)
    ∷ ("MB", 1000 * 1000)
    ∷ ("M", 1024 * 1024)
    ∷ ("MiB", 1024 * 1024)
    ∷ ("GB", 1000 * 1000 * 1000)
    ∷ ("G", 1024 * 1024 * 1024)
    ∷ ("GiB", 1024 * 1024 * 1024)
    ∷ ("TB", 1000 * 1000 * 1000 * 1000)
    ∷ ("T", 1024 * 1024 * 1024 * 1024)
    ∷ ("TiB", 1024 * 1024 * 1024 * 1024)
    ∷ ("PB", 1000 * 1000 * 1000 * 1000 * 1000)
    ∷ ("P", 1024 * 1024 * 1024 * 1024 * 1024)
    ∷ ("PiB", 1024 * 1024 * 1024 * 1024 * 1024)
    ∷ ("EB", 1000 * 1000 * 1000 * 1000 * 1000 * 1000)
    ∷ ("E", 1024 * 1024 * 1024 * 1024 * 1024 * 1024)
    ∷ ("EiB", 1024 * 1024 * 1024 * 1024 * 1024 * 1024)
    ∷ []

lookup_unit : String → List (String × ℕ) → ℕ
lookup_unit u [] = 0
lookup_unit u ((k, v) ∷ m) = if str_eq k u then v else lookup_unit u m

unfoldable pub unit_bytes : String → ℕ
unfolding lookup_unit
unit_bytes u = lookup_unit u unit_conversion

unfoldable pub convert_to_bytes : ℕ → String → ℕ
convert_to_bytes value unit = value * unit_bytes unit % u64_mod

pub convert_to_bytes-lt : (v : ℕ) (u : String) → convert_to_bytes v u < u64_mod
unfolding convert_to_bytes
convert_to_bytes-lt v u = omega arith

-- The result is the exact product whenever that fits in 64 bits, and otherwise it is smaller.
pub convert_to_bytes_exact :
    (v : ℕ) (u : String)
    → (v * unit_bytes u < u64_mod → convert_to_bytes v u ≡ v * unit_bytes u)
      × (u64_mod ≤ v * unit_bytes u → convert_to_bytes v u < v * unit_bytes u)
unfolding convert_to_bytes
convert_to_bytes_exact v u = (λ h. omega arith, λ h. omega arith)

-- Converting a larger value of one unit gives no fewer bytes, as long as the larger one fits.
pub convert_to_bytes_mono :
    (v w : ℕ) (u : String)
    → v ≤ w
    → w * unit_bytes u < u64_mod
    → convert_to_bytes v u ≤ convert_to_bytes w u
convert_to_bytes_mono v w u h fits =
    let low : v * unit_bytes u ≤ w * unit_bytes u = grind arith in
    omega (arith, (convert_to_bytes_exact v u).0, (convert_to_bytes_exact w u).0)

sixteen_eib : convert_to_bytes 16 "EiB" ≡ 0
unfolding convert_to_bytes unit_bytes
sixteen_eib = refl

unknown_unit : unit_bytes "KIB" ≡ 0
unfolding unit_bytes
unknown_unit = refl
