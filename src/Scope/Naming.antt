-- ===== src/Scope/Naming.antt =====
-- Names as lists of characters, and the names of src/constant.h for symbols of other kinds.
use ydsh.Prelude.{
  Bool, List, [], arith, drop, false, if◌then◌else◌, length, ltb, refl, suc, take, true, zero, ℕ,
  ◌%◌, ◌&&◌, ◌+◌, ◌-◌, ◌/◌, ◌==◌, ◌∷◌, ◌≡◌, leb,
}

abbrev pub Name : Type 0
Name = List ℕ

abbrev pub eqb_name : Name → Name → Bool
eqb_name [] [] = true
eqb_name [] (y ∷ ys) = false
eqb_name (x ∷ xs) [] = false
eqb_name (x ∷ xs) (y ∷ ys) = (x == y) && eqb_name xs ys

pub eqb_name_refl : (n : Name) → eqb_name n n ≡ true
eqb_name_refl [] = refl
eqb_name_refl (x ∷ xs) = let e = eqb_name_refl xs in ground arith

pub eqb_name→eq : (a b : Name) → eqb_name a b ≡ true → a ≡ b
eqb_name→eq [] [] h = refl
eqb_name→eq [] (y ∷ ys) h = absurd (cc)
eqb_name→eq (x ∷ xs) [] h = absurd (cc)
eqb_name→eq (x ∷ xs) (y ∷ ys) h = let e = eqb_name→eq xs ys in ground arith

-- `std::to_string` of an id below 10 ^ fuel.
abbrev digits : ℕ → ℕ → Name → Name
digits zero n acc = acc
digits (suc fuel) n acc =
    let rest = digits fuel (n / 10) ((48 + n % 10) ∷ acc) in
    if ltb n 10 then (48 + n) ∷ acc else rest

-- The suffixes "%c", "%t" and "%m".
abbrev pub suffix_of : ℕ → Name
suffix_of c = 37 ∷ c ∷ []

abbrev pub cmd_symbol_suffix : Name
cmd_symbol_suffix = suffix_of 99

abbrev pub type_alias_symbol_suffix : Name
type_alias_symbol_suffix = suffix_of 116

abbrev pub mod_holder_symbol_suffix : Name
mod_holder_symbol_suffix = suffix_of 109

-- A module id has at most 5 digits.
unfoldable pub to_mod_holder_name : ℕ → Bool → Name
to_mod_holder_name id global =
    95 ∷ (if global then 103 else 110) ∷ digits 5 id mod_holder_symbol_suffix

unfoldable pub ends_with : Name → Name → Bool
ends_with name suffix =
    leb (length suffix) (length name) && eqb_name (drop (length name - length suffix) name) suffix

unfoldable pub remove_suffix : ℕ → Name → Name
remove_suffix n name = take (length name - n) name

-- `name.startsWith("_")`
unfoldable pub is_private : Name → Bool
is_private [] = false
is_private (c ∷ cs) = c == 95
