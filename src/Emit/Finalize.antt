-- ===== src/Emit/Finalize.antt =====
-- `finalize` against its patches.
use ydsh.Prelude.{
  All, Bool-cases, List, [], arith, false, get_or, inl, inr, length, lt_or_le, ltb, refl, some, sym,
  true, ℕ, ◌*◌, ◌++◌, ◌-◌, ◌<◌, ◌^◌, ◌∙◌, ◌∷◌, ◌≡◌, ◌≤◌, ap,
}
use ydsh.Emit.{
  LabelTarget, LabelMap, OffsetLen, len8, len16, len32, write_n, Emitter, with_code, Written, done,
  too_long, fatal, and_then, write_offset, write_target, write_targets, write_entries, cleared,
  finalize, emit8, emit16, emit32,
}
use ydsh.Emit.Patches.{
  Patch, width, place, size, offset, patches_of, patches, AllApart, write_patch, apply_patches,
  Inside, Fits, get_or-apply_patches, apply_patches-Reads, Reads, length-apply_patches,
}
use ydsh.Emit.Words.{Beside}
use mathlib.Core.Path.{subst, fun_ext}
use native.Mathlib.Nat.{mod-eq_of_lt}

-- The loops of `finalize` as one loop over patches.
abbrev pub write_patches : List Patch → Emitter → Written
write_patches [] e = done e
write_patches (p ∷ ps) e = and_then (write_target p.location p.target e) (λ e'. write_patches ps e')

and_then_assoc :
    (w : Written) (f g : Emitter → Written)
    → and_then (and_then w f) g ≡ and_then w (λ e. and_then (f e) g)
and_then_assoc (done e) f g = refl
and_then_assoc (too_long e) f g = refl
and_then_assoc fatal f g = refl

write_patches-append :
    (ps qs : List Patch) (e : Emitter)
    → write_patches (ps ++ qs) e ≡ and_then (write_patches ps e) (λ e'. write_patches qs e')
write_patches-append [] qs e = refl
write_patches-append (p ∷ ps) qs e =
    ap (λ k. and_then (write_target p.location p.target e) k)
      (fun_ext (λ e'. write_patches-append ps qs e'))
    ∙ sym (and_then_assoc (write_target p.location p.target e) _ _)

write_targets-patches :
    (location : ℕ) (us : List LabelTarget) (e : Emitter)
    → write_targets location us e ≡ write_patches (patches_of location us) e
unfolding write_targets
write_targets-patches location [] e = refl
write_targets-patches location (u ∷ us) e =
    ap (λ k. and_then (write_target location u e) k)
      (fun_ext (λ e'. write_targets-patches location us e'))

-- A value that the loops carry on.
abbrev Keeps : List ℕ → Written → Type 0
Keeps ix (done e) = e.indices ≡ ix
Keeps ix (too_long e) = e.indices ≡ ix
Keeps ix fatal = Unit {0}

write_offset-Keeps :
    (index n : ℕ) (len : OffsetLen) (e : Emitter) → Keeps e.indices (write_offset index n len e)
unfolding write_offset emit8 emit16 emit32
write_offset-Keeps index n len8 e = elim (Bool-cases (ltb 255 n)) [
  | inl t ↦ rw t refl
  | inr t ↦ rw t refl
]
write_offset-Keeps index n len16 e = elim (Bool-cases (ltb 65535 n)) [
  | inl t ↦ rw t refl
  | inr t ↦ rw t refl
]
write_offset-Keeps index n len32 e = refl

write_target-Keeps : (l : ℕ) (u : LabelTarget) (e : Emitter) → Keeps e.indices (write_target l u e)
unfolding write_target
write_target-Keeps l u e = elim (Bool-cases (ltb l u.base_index)) [
  | inl t ↦ rw t tt
  | inr t ↦ rw t (write_offset-Keeps u.target_index (l - u.base_index) u.offset_len e)
]

and_then-Keeps :
    (ix : List ℕ) (w : Written) (f : Emitter → Written)
    → Keeps ix w
    → ((e : Emitter) → e.indices ≡ ix → Keeps ix (f e))
    → Keeps ix (and_then w f)
and_then-Keeps ix (done e) f k h = h e k
and_then-Keeps ix (too_long e) f k h = k
and_then-Keeps ix fatal f k h = tt

write_patches-Keeps : (ps : List Patch) (e : Emitter) → Keeps e.indices (write_patches ps e)
write_patches-Keeps [] e = refl
write_patches-Keeps (p ∷ ps) e =
    and_then-Keeps e.indices (write_target p.location p.target e) _
      (write_target-Keeps p.location p.target e)
      (λ e' same. subst (λ ix. Keeps ix (write_patches ps e')) same (write_patches-Keeps ps e'))

and_then-same :
    (ix : List ℕ) (w : Written) (f g : Emitter → Written)
    → Keeps ix w
    → ((e : Emitter) → e.indices ≡ ix → f e ≡ g e)
    → and_then w f ≡ and_then w g
and_then-same ix (done e) f g k h = h e k
and_then-same ix (too_long e) f g k h = refl
and_then-same ix fatal f g k h = refl

write_entries-patches :
    (m : LabelMap) (e : Emitter) → write_entries m e ≡ write_patches (patches e.indices m) e
unfolding write_entries
write_entries-patches [] e = refl
write_entries-patches ((l, us) ∷ m) e =
    let here : List Patch = patches_of (get_or e.indices l 0) us in
    ap (λ w. and_then w (λ e'. write_entries m e'))
      (write_targets-patches (get_or e.indices l 0) us e)
    ∙ and_then-same e.indices (write_patches here e) (λ e'. write_entries m e')
        (λ e'. write_patches (patches e.indices m) e') (write_patches-Keeps here e)
        (λ e' same. write_entries-patches m e' ∙ ap (λ ix. write_patches (patches ix m) e') same)
    ∙ sym (write_patches-append here (patches e.indices m) e)

-- The label stands behind the base, at an address of 32 bits.
abbrev pub Ready : Patch → Type 0
Ready p = (p.target.base_index ≤ p.location) × (p.location < 2 ^ 32)

write_offset-done :
    (index n : ℕ) (len : OffsetLen) (e : Emitter)
    → n < 2 ^ (width len * 8)
    → write_offset index n len e ≡ done (with_code (write_n (width len) n index e.code) e)
unfolding write_offset emit8 emit16 emit32
write_offset-done index n len8 e h =
    let t : ltb 255 n ≡ false = ground arith in
    rw t (ap (λ k. done (with_code (write_n 1 k index e.code) e)) (mod-eq_of_lt h))
write_offset-done index n len16 e h =
    let t : ltb 65535 n ≡ false = ground arith in
    rw t (ap (λ k. done (with_code (write_n 2 k index e.code) e)) (mod-eq_of_lt h))
write_offset-done index n len32 e h =
    ap (λ k. done (with_code (write_n 4 k index e.code) e)) (mod-eq_of_lt h)

write_offset-over :
    (index n : ℕ) (len : OffsetLen) (e : Emitter)
    → 2 ^ (width len * 8) ≤ n
    → n < 2 ^ 32
    → write_offset index n len e ≡ too_long e
unfolding write_offset
write_offset-over index n len8 e h r = let t : ltb 255 n ≡ true = ground arith in rw t refl
write_offset-over index n len16 e h r = let t : ltb 65535 n ≡ true = ground arith in rw t refl
write_offset-over index n len32 e h r = absurd (omega arith)

write_target-at_base :
    (p : Patch) (e : Emitter)
    → Ready p
    → write_target p.location p.target e ≡ write_offset (place p) (offset p) p.target.offset_len e
unfolding write_target
write_target-at_base p e r =
    let t : ltb p.location p.target.base_index ≡ false = ground arith in rw t refl

write_target-done :
    (p : Patch) (e : Emitter)
    → Ready p
    → Fits p
    → write_target p.location p.target e ≡ done (with_code (write_patch p e.code) e)
write_target-done p e r f =
    write_target-at_base p e r ∙ write_offset-done (place p) (offset p) p.target.offset_len e f

write_target-over :
    (p : Patch) (e : Emitter)
    → Ready p
    → 2 ^ (size p * 8) ≤ offset p
    → write_target p.location p.target e ≡ too_long e
write_target-over p e r f =
    write_target-at_base p e r
    ∙ write_offset-over (place p) (offset p) p.target.offset_len e f (omega arith)

write_patches-done :
    (ps : List Patch) (e : Emitter)
    → All Ready ps
    → All Fits ps
    → write_patches ps e ≡ done (with_code (apply_patches ps e.code) e)
write_patches-done [] e r f = refl
write_patches-done (p ∷ ps) e r f =
    ap (λ w. and_then w (λ e'. write_patches ps e')) (write_target-done p e r.0 f.0)
    ∙ write_patches-done ps (with_code (write_patch p e.code) e) r.1 f.1

abbrev LeftOver : LabelMap → Written → Type 0
LeftOver m w = (e : Emitter) × (w ≡ too_long e) × (e.label_map ≡ m)

write_patches-over :
    (ps : List Patch) (e : Emitter)
    → All Ready ps
    → ¬ All Fits ps
    → LeftOver e.label_map (write_patches ps e)
write_patches-over [] e r f = absurd (f tt)
write_patches-over (p ∷ ps) e r f = elim (lt_or_le (offset p) (2 ^ (size p * 8))) [
  | inl fits ↦
      subst (LeftOver e.label_map)
        (sym (ap (λ w. and_then w (λ e'. write_patches ps e')) (write_target-done p e r.0 fits)))
        (write_patches-over ps (with_code (write_patch p e.code) e) r.1 (λ all. f (fits, all)))
  | inr over ↦
      (e, ap (λ w. and_then w (λ e'. write_patches ps e')) (write_target-over p e r.0 over), refl)
]

abbrev pub all_patches : Emitter → List Patch
all_patches e = patches e.indices e.label_map

-- Offsets that fit are all written, each as the distance from its base to its label, and no other
-- byte changes; the map is emptied.
pub finalize-Reads :
    (e : Emitter)
    → All Ready (all_patches e)
    → All Fits (all_patches e)
    → All (Inside (length e.code)) (all_patches e)
    → AllApart (all_patches e)
    → (e' : Emitter) × (finalize e ≡ some (e', true))
      × All (Reads e'.code) (all_patches e)
      × ((j : ℕ)
          → All (λ p. Beside (size p) (place p) j) (all_patches e)
          → get_or e'.code j 0 ≡ get_or e.code j 0)
      × (length e'.code ≡ length e.code)
      × (e'.label_map ≡ [])
unfolding finalize
finalize-Reads e r f i a =
    let ps : List Patch = all_patches e in
    (
      record e { label_map = []; code = apply_patches ps e.code },
      ap cleared (write_entries-patches e.label_map e ∙ write_patches-done ps e r f),
      apply_patches-Reads ps e.code i f a,
      λ j h. get_or-apply_patches ps e.code j h,
      length-apply_patches ps e.code,
      refl,
    )

-- An offset that does not fit its width is an error, and the map stays.
pub finalize-over :
    (e : Emitter)
    → All Ready (all_patches e)
    → ¬ All Fits (all_patches e)
    → (e' : Emitter) × (finalize e ≡ some (e', false)) × (e'.label_map ≡ e.label_map)
unfolding finalize
finalize-over e r f =
    let over = write_patches-over (all_patches e) e r f in
    (over.0, ap cleared (write_entries-patches e.label_map e ∙ over.1), over.2)
