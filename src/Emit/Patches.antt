-- ===== src/Emit/Patches.antt =====
-- What `finalize` is to do: a word at each target, the distance from its base to its label.
use ydsh.Prelude.{
  All, List, [], arith, get_or, length, refl, sym, ℕ, ◌*◌, ◌++◌, ◌+◌, ◌-◌, ◌<◌, ◌^◌, ◌∙◌, ◌∷◌, ◌≡◌,
  ◌≤◌, ◌⊎◌,
}
use ydsh.Emit.{Byte, LabelTarget, LabelMap, OffsetLen, len8, len16, len32, write_n, read_n}
use ydsh.Emit.Words.{length-write_n, get_or-write_n, read_n-write_n, read_n-write_n_apart, Beside}
use native.Mathlib.Nat.{mod-eq_of_lt}
use mathlib.Core.Path.{subst}

-- A target with the address of its label.
pub record Patch : Type 0 where
  pub location : ℕ
  pub target : LabelTarget

abbrev pub width : OffsetLen → ℕ
width len8 = 1
width len16 = 2
width len32 = 4

abbrev pub place : Patch → ℕ
place p = p.target.target_index

abbrev pub size : Patch → ℕ
size p = width p.target.offset_len

abbrev pub offset : Patch → ℕ
offset p = p.location - p.target.base_index

abbrev pub patches_of : ℕ → List LabelTarget → List Patch
patches_of location [] = []
patches_of location (u ∷ us) = record { location = location; target = u } ∷ patches_of location us

abbrev pub patches : List ℕ → LabelMap → List Patch
patches indices [] = []
patches indices ((l, us) ∷ m) = patches_of (get_or indices l 0) us ++ patches indices m

-- The words of two patches do not overlap.
abbrev pub Apart : Patch → Patch → Type 0
Apart p q = (place p + size p ≤ place q) ⊎ (place q + size q ≤ place p)

abbrev pub AllApart : List Patch → Type 0
AllApart [] = Unit {0}
AllApart (p ∷ ps) = All (Apart p) ps × AllApart ps

abbrev pub write_patch : Patch → List Byte → List Byte
write_patch p code = write_n (size p) (offset p) (place p) code

abbrev pub apply_patches : List Patch → List Byte → List Byte
apply_patches [] code = code
apply_patches (p ∷ ps) code = apply_patches ps (write_patch p code)

abbrev pub Inside : ℕ → Patch → Type 0
Inside n p = place p + size p ≤ n

abbrev pub Fits : Patch → Type 0
Fits p = offset p < 2 ^ (size p * 8)

pub length-apply_patches :
    (ps : List Patch) (code : List Byte) → length (apply_patches ps code) ≡ length code
length-apply_patches [] code = refl
length-apply_patches (p ∷ ps) code =
    length-apply_patches ps (write_patch p code) ∙ length-write_n (size p) (offset p) (place p) code

-- A byte that no patch covers stays.
pub get_or-apply_patches :
    (ps : List Patch) (code : List Byte) (j : ℕ)
    → All (λ p. Beside (size p) (place p) j) ps
    → get_or (apply_patches ps code) j 0 ≡ get_or code j 0
get_or-apply_patches [] code j h = refl
get_or-apply_patches (p ∷ ps) code j h =
    get_or-apply_patches ps (write_patch p code) j h.1
    ∙ get_or-write_n (size p) (offset p) (place p) j code h.0

read_n-apply_patches :
    (p : Patch) (ps : List Patch) (code : List Byte)
    → All (Apart p) ps
    → read_n (size p) (apply_patches ps code) (place p) ≡ read_n (size p) code (place p)
read_n-apply_patches p [] code h = refl
read_n-apply_patches p (q ∷ ps) code h =
    read_n-apply_patches p ps (write_patch q code) h.1
    ∙ read_n-write_n_apart (size q) (size p) (offset q) (place q) (place p) code (omega arith)

abbrev pub Reads : List Byte → Patch → Type 0
Reads code p = read_n (size p) code (place p) ≡ offset p

-- Patches that lie in the code, fit and do not overlap are all read back.
pub apply_patches-Reads :
    (ps : List Patch) (code : List Byte)
    → All (Inside (length code)) ps
    → All Fits ps
    → AllApart ps
    → All (Reads (apply_patches ps code)) ps
apply_patches-Reads [] code i f a = tt
apply_patches-Reads (p ∷ ps) code i f a = (
  read_n-apply_patches p ps (write_patch p code) a.0
      ∙ read_n-write_n (size p) (offset p) (place p) code i.0
      ∙ mod-eq_of_lt f.0,
  apply_patches-Reads ps (write_patch p code)
      (subst (λ n. All (Inside n) ps) (sym (length-write_n (size p) (offset p) (place p) code)) i.1)
      f.1 a.1,
)
