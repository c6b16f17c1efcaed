-- ===== src/Order.antt =====
-- Python's comparison of sort keys, and its stable `sorted`.
pub mod Laws
pub mod Sorted
use Prim.Native.Char.{code}
use standards_control_plane.Prelude.{
  Bool, List, String, [], false, if◌then◌else◌, ltb, nat_eq, true, ℕ, ◌&&◌, ◌||◌, ◌∷◌,
}
use standards_control_plane.Prelude.Int.{leb_ℤ, ℤ}

-- The code points of a text; texts are compared by them.
pub codes : String → List ℕ
codes String.[] = []
codes (String.◌∷◌ c s) = code c ∷ codes s

-- Sequences are compared by the first place where they differ, then by length.
unfoldable pub leb_codes : List ℕ → List ℕ → Bool
leb_codes [] ys = true
leb_codes (x ∷ xs) [] = false
leb_codes (x ∷ xs) (y ∷ ys) = ltb x y || (nat_eq x y && leb_codes xs ys)

-- `s <= t` on texts.
unfoldable pub leb_text : String → String → Bool
unfolding codes leb_codes
leb_text s t = leb_codes (codes s) (codes t)

-- A component of a key. The program never compares a number with a text; a number is put first.
pub data Atom : Type 0 where
  int : ℤ → Atom
  text : String → Atom

unfoldable pub leb_atom : Atom → Atom → Bool
unfolding leb_text
leb_atom (int a) (int b) = leb_ℤ a b
leb_atom (int a) (text t) = true
leb_atom (text s) (int b) = false
leb_atom (text s) (text t) = leb_text s t

abbrev pub Key : Type 0
Key = List Atom

-- Tuples are compared in the same way as texts.
unfoldable pub leb_key : Key → Key → Bool
unfolding leb_atom
leb_key [] ys = true
leb_key (x ∷ xs) [] = false
leb_key (x ∷ xs) (y ∷ ys) =
    if leb_atom x y then (if leb_atom y x then leb_key xs ys else true) else false

module _ {ℓ} {A : Type ℓ} (key : A → Key) where
  -- Before the first element whose key is not smaller, so equal keys keep their order.
  unfoldable pub insert : A → List A → List A
  insert x [] = x ∷ []
  insert x (y ∷ ys) =
      let rest = insert x ys in if leb_key (key x) (key y) then x ∷ y ∷ ys else y ∷ rest

  -- `sorted(xs, key=key)`
  unfoldable pub sorted : List A → List A
  unfolding insert leb_key
  sorted [] = []
  sorted (x ∷ xs) = insert x (sorted xs)
