-- ===== src/Parser/Order.antt =====
-- Precedence and associativity of a tree.
use ydsh.Prelude.{
  Bool, Bool-cases, List, arith, false, if◌then◌else◌, inl, inr, refl, true, ℕ, ◌<◌, ◌≡◌, ◌≤◌, suc,
}
use Prim.Native.Nat.{min}
use ydsh.Parser.Tokens.{TokenKind, get_op_info, get_precedence, next_prece}
use ydsh.Parser.{
  Token, Node, part, prefix, type_op, with_redirs, ternary_if, background_fork, binary, cur_token,
  cur_kind, goes_on, PrefixKind, unary_op, throw_node, coproc_node,
}
use mathlib.Core.Path.{subst}

-- Above every precedence.
abbrev pub top_prece : ℕ
top_prece = 18

-- How strongly an operator binds: a cast or type test, then products, sums, `and`, `xor`, `or`, `??`,
-- comparisons, `with`, variables of a command, `|`, `&&`, `||`, `? :`, `throw` and `coproc`, `&`, and
-- assignments.
abbrev pub level : TokenKind → ℕ
level TokenKind.is_op = 17
level TokenKind.as_op = 17
level TokenKind.mul = 16
level TokenKind.div = 16
level TokenKind.mod_op = 16
level TokenKind.add = 15
level TokenKind.sub = 15
level TokenKind.and = 14
level TokenKind.xor = 13
level TokenKind.or = 12
level TokenKind.null_coale = 11
level TokenKind.lt = 10
level TokenKind.gt = 10
level TokenKind.le = 10
level TokenKind.ge = 10
level TokenKind.eq = 10
level TokenKind.ne = 10
level TokenKind.match = 10
level TokenKind.unmatch = 10
level TokenKind.str_check = 10
level TokenKind.with = 9
level TokenKind.env_assign = 8
level TokenKind.pipe = 7
level TokenKind.cond_and = 6
level TokenKind.cond_or = 5
level TokenKind.ternary = 4
level TokenKind.throw = 3
level TokenKind.coproc = 3
level TokenKind.background = 2
level TokenKind.disown_bg = 2
level TokenKind.assign = 1
level TokenKind.add_assign = 1
level TokenKind.sub_assign = 1
level TokenKind.mul_assign = 1
level TokenKind.div_assign = 1
level TokenKind.mod_assign = 1
level TokenKind.str_assign = 1
level TokenKind.null_assign = 1
level _ = 0

abbrev pub op_prece : Token → ℕ
op_prece t = level t.kind

-- The operators of which a chain nests to the right: `??`, the assignments, and two that are prefixes.
abbrev pub nests_right : TokenKind → Bool
nests_right TokenKind.null_coale = true
nests_right TokenKind.throw = true
nests_right TokenKind.coproc = true
nests_right TokenKind.assign = true
nests_right TokenKind.add_assign = true
nests_right TokenKind.sub_assign = true
nests_right TokenKind.mul_assign = true
nests_right TokenKind.div_assign = true
nests_right TokenKind.mod_assign = true
nests_right TokenKind.str_assign = true
nests_right TokenKind.null_assign = true
nests_right _ = false

-- The least precedence in the right operand of an infix operator: its own if a chain nests to the
-- right, else a greater one.
abbrev pub right_kind : TokenKind → ℕ
right_kind k = if nests_right k then level k else suc (level k)

abbrev pub right_level : Token → ℕ
right_level t = right_kind t.kind

-- The lowest precedence among the operators that stand open at the left of a tree.
abbrev pub low : Node → ℕ
low (part q) = top_prece
low (prefix k t n) = top_prece
low (type_op n t q) = min (op_prece t) (low n)
low (with_redirs n t qs) = min (op_prece t) (low n)
low (ternary_if c t a colon b) = min (op_prece t) (low c)
low (background_fork n t) = min (op_prece t) (low n)
low (binary k l t r) = min (op_prece t) (low l)

-- A tree that ends with `&` or `&!` takes no further operator into its right end.
abbrev pub ends_job : Node → Bool
ends_job (part q) = false
ends_job (prefix k t n) = ends_job n
ends_job (type_op n t q) = false
ends_job (with_redirs n t qs) = false
ends_job (ternary_if c t a colon b) = ends_job b
ends_job (background_fork n t) = true
ends_job (binary k l t r) = ends_job r

abbrev pub limit_of : ℕ → Bool → ℕ → ℕ
limit_of base closed inner = if closed then top_prece else min base inner

abbrev pub prefix_prece : PrefixKind → ℕ
prefix_prece unary_op = top_prece
prefix_prece throw_node = level TokenKind.throw
prefix_prece coproc_node = level TokenKind.coproc

-- An operator of this precedence or above would belong to the right end of the tree, not follow it.
abbrev pub edge : Node → ℕ
edge (part q) = top_prece
edge (prefix k t n) = limit_of (prefix_prece k) (ends_job n) (edge n)
edge (type_op n t q) = top_prece
edge (with_redirs n t qs) = top_prece
edge (ternary_if c t a colon b) = limit_of (level TokenKind.ternary) (ends_job b) (edge b)
edge (background_fork n t) = top_prece
edge (binary k l t r) = limit_of (right_level t) (ends_job r) (edge r)

abbrev pub limit : ℕ → Node → ℕ
limit base n = limit_of base (ends_job n) (edge n)

-- Each operator binds weaker than what stands at its left takes in, and its right operand has only
-- operators that bind more strongly, or as strongly where a chain nests to the right.
abbrev pub IsOrdered : Node → Type 0
IsOrdered (part q) = Unit {0}
IsOrdered (prefix k t n) = IsOrdered n × (prefix_prece k ≤ low n)
IsOrdered (type_op n t q) = IsOrdered n × (op_prece t < edge n)
IsOrdered (with_redirs n t qs) = IsOrdered n × (op_prece t < edge n)
IsOrdered (ternary_if c t a colon b) =
    IsOrdered c
    × (op_prece t < edge c)
    × IsOrdered a
    × (level TokenKind.ternary ≤ low a)
    × IsOrdered b
    × (level TokenKind.ternary ≤ low b)
IsOrdered (background_fork n t) = IsOrdered n × (op_prece t < edge n)
IsOrdered (binary k l t r) =
    IsOrdered l × (op_prece t < edge l) × IsOrdered r × (right_level t ≤ low r)

prece-level : (k : TokenKind) → (get_op_info k).prece ≡ level k
unfolding get_op_info
prece-level TokenKind.eos = refl
prece-level _ = refl

pub op_prece-lt : (k : TokenKind) → (get_op_info k).prece < top_prece
unfolding get_op_info
op_prece-lt TokenKind.eos = omega arith
op_prece-lt _ = omega arith

pub next_prece-right_kind : (k : TokenKind) → next_prece k ≡ right_kind k
unfolding next_prece get_op_info
next_prece-right_kind TokenKind.eos = refl
next_prece-right_kind _ = refl

pub next_prece-le : (k : TokenKind) → next_prece k ≤ top_prece
unfolding next_prece get_op_info
next_prece-le TokenKind.eos = omega arith
next_prece-le _ = omega arith

pub get_precedence-le : (k : TokenKind) → get_precedence k ≤ top_prece
unfolding get_precedence
get_precedence-le k = omega (arith, op_prece-lt k)

edge-ends_job : (n : Node) → ends_job n ≡ true → edge n ≡ top_prece
edge-ends_job (part q) h = refl
edge-ends_job (prefix k t n) h = rw h
edge-ends_job (type_op n t q) h = refl
edge-ends_job (with_redirs n t qs) h = refl
edge-ends_job (ternary_if c t a colon b) h = rw h
edge-ends_job (background_fork n t) h = refl
edge-ends_job (binary k l t r) h = rw h

module _ (skippable : Bool) (ts : List Token) where
  pub goes_on-top : goes_on skippable top_prece ts ≡ false
  unfolding goes_on
  goes_on-top = ground (arith, op_prece-lt (cur_kind ts))

  -- What goes on at one level and stops at another has a precedence between them.
  pub goes_on-between :
      (base e : ℕ)
      → goes_on skippable base ts ≡ true
      → goes_on skippable e ts ≡ false
      → (base ≤ op_prece (cur_token ts)) × (op_prece (cur_token ts) < e)
  unfolding goes_on
  goes_on-between base e h k = ground (arith, prece-level (cur_kind ts))

  pub goes_on-limit :
      (base : ℕ) (n : Node)
      → goes_on skippable base ts ≡ false
      → goes_on skippable (edge n) ts ≡ false
      → goes_on skippable (limit base n) ts ≡ false
  goes_on-limit base n h k = elim (Bool-cases (ends_job n)) [
    | inl c ↦ rw c goes_on-top
    | inr c ↦ rw c (unfold goes_on in ground arith)
  ]

  goes_on-min :
      (e : ℕ) → goes_on skippable (min top_prece e) ts ≡ false → goes_on skippable e ts ≡ false
  unfolding goes_on
  goes_on-min e h = ground (arith, op_prece-lt (cur_kind ts))

  pub goes_on-edge :
      (n : Node)
      → goes_on skippable (limit top_prece n) ts ≡ false
      → goes_on skippable (edge n) ts ≡ false
  goes_on-edge n h = elim (Bool-cases (ends_job n)) [
    | inl c ↦ rw (edge-ends_job n c) goes_on-top
    | inr c ↦
        goes_on-min (edge n)
          (subst (λ b. goes_on skippable (limit_of top_prece b (edge n)) ts ≡ false) c h)
  ]
