-- ===== src/Parser/Climb.antt =====
-- One round of the loop of `parse_expression`.
use ydsh.Prelude.{
  Bool, List, [], append-nil, append_assoc, arith, false, if◌then◌else◌, length, not, refl, suc,
  sym, true, zero, ℕ, ◌++◌, ◌<◌, ◌∙◌, ◌∷◌, ◌≡◌, ◌≢◌, ◌≤◌, ap,
}
use ydsh.Parser.Tokens.{TokenKind, get_precedence, next_prece}
use ydsh.Parser.{
  Token, out_of_fuel, Result, ok, err, and_then, Part, Parts, Node, type_op, with_redirs,
  ternary_if, background_fork, binary, binary_kind, cur_token, cur_kind, consume, goes_on,
  InfixCase, type_case, with_case, ternary_case, background_case, operator_case, redirs_loop,
  expect_colon, climb_step, is_colon, is_redir, is_invalid_token, invalid_token, token_mismatched,
}
use ydsh.Parser.Yield.{
  yield, part_tokens, Ensures, and_then-Ensures, Reads, length-Reads, cur_consume, yield_after,
}
use ydsh.Parser.Order.{
  low, edge, limit, IsOrdered, op_prece, goes_on-top, goes_on-between, top_prece, next_prece-le,
  next_prece-right_kind, get_precedence-le,
}
use mathlib.Core.Path.{subst}

-- A redirection has a token at least.
abbrev pub ReadsSome : List Token → Part → List Token → Type 0
ReadsSome ts q rest = (q.tokens ++ rest ≡ ts) × (length rest < length ts)

-- The parameters read what they are given, or end with an error of the parser.
pub record PartsRead (p : Parts) : Type 0 where
  pub suffix_reads : (room : ℕ) (ts : List Token) → Ensures (Reads ts) (p.suffix room ts)
  pub type_name_reads : (room : ℕ) (ts : List Token) → Ensures (Reads ts) (p.type_name room ts)
  pub redir_reads : (room : ℕ) (ts : List Token) → Ensures (ReadsSome ts) (p.redir_option room ts)

-- A tree, read from `all`, with the tokens that are left: an operator that comes next belongs to
-- neither its right end nor an expression of the level `base`.
pub record Parsed (skippable : Bool) (base : ℕ) (all : List Token) (n : Node) (rest : List Token)
    : Type 0 where
  pub reads : yield n ++ rest ≡ all
  pub ordered : IsOrdered n
  pub is_low : base ≤ low n
  pub stops : goes_on skippable (limit base n) rest ≡ false

-- A tree to which the loop may still add.
pub record Partial (skippable : Bool) (base : ℕ) (all : List Token) (n : Node) (rest : List Token)
    : Type 0 where
  pub reads : yield n ++ rest ≡ all
  pub ordered : IsOrdered n
  pub is_low : base ≤ low n
  pub stops : goes_on skippable (edge n) rest ≡ false

part_tokens-append :
    (qs : List Part) (q : Part) → part_tokens (qs ++ q ∷ []) ≡ part_tokens qs ++ q.tokens
part_tokens-append [] q = append-nil q.tokens
part_tokens-append (x ∷ qs) q =
    ap (λ k. x.tokens ++ k) (part_tokens-append qs q)
    ∙ sym (append_assoc x.tokens (part_tokens qs) q.tokens)

abbrev ReadParts : List Token → List Part → List Token → Type 0
ReadParts ts qs rest = part_tokens qs ++ rest ≡ ts

abbrev redirs_round : Parts → ℕ → ℕ → List Part → List Token → Result (List Part)
redirs_round p room fuel acc ts =
    if is_redir (cur_kind ts)
    then and_then (p.redir_option room ts) (λ q rest. redirs_loop p room fuel (acc ++ q ∷ []) rest)
    else if is_invalid_token (cur_kind ts)
    then err invalid_token
    else ok acc ts

redirs_loop-suc :
    (p : Parts) (room fuel : ℕ) (acc : List Part) (ts : List Token)
    → redirs_loop p room (suc fuel) acc ts
      ≡ (if not (cur_token ts).space then ok acc ts else redirs_round p room fuel acc ts)
unfolding redirs_loop
redirs_loop-suc p room fuel acc ts = refl

if-Ensures :
    {A : Type 0} (P : A → List Token → Type 0) (b : Bool) (x y : Result A)
    → Ensures P x
    → Ensures P y
    → Ensures P (if b then x else y)
if-Ensures P true x y hx hy = hx
if-Ensures P false x y hx hy = hy

pub invalid-ne : invalid_token ≢ out_of_fuel
invalid-ne e = cc

pub mismatched-ne : token_mismatched TokenKind.colon ≢ out_of_fuel
mismatched-ne e = cc

redirs_loop_lem :
    (p : Parts)
    → PartsRead p
    → (room fuel : ℕ) (acc : List Part) (ts all : List Token) → length ts < fuel
    → part_tokens acc ++ ts ≡ all
    → Ensures (ReadParts all) (redirs_loop p room fuel acc ts)
redirs_loop_lem p pr room zero acc ts all lt h = absurd (omega arith)
redirs_loop_lem p pr room (suc fuel) acc ts all lt h =
    let more =
      and_then-Ensures (ReadsSome ts) (ReadParts all) (p.redir_option room ts)
        (λ q rest. redirs_loop p room fuel (acc ++ q ∷ []) rest) (pr.redir_reads room ts)
        (λ q rest k. redirs_loop_lem p pr room fuel (acc ++ q ∷ []) rest all (omega arith) (
          ap (λ t. t ++ rest) (part_tokens-append acc q)
          ∙ append_assoc (part_tokens acc) q.tokens rest
          ∙ ap (λ t. part_tokens acc ++ t) k.0
          ∙ h)) in
    subst (Ensures (ReadParts all)) (sym (redirs_loop-suc p room fuel acc ts)) (
      if-Ensures (ReadParts all) (not (cur_token ts).space) (ok acc ts)
        (redirs_round p room fuel acc ts) h
        (if-Ensures (ReadParts all) (is_redir (cur_kind ts))
          (and_then (p.redir_option room ts)
            (λ q rest. redirs_loop p room fuel (acc ++ q ∷ []) rest))
          (if is_invalid_token (cur_kind ts) then err invalid_token else ok acc ts) more
          (if-Ensures (ReadParts all) (is_invalid_token (cur_kind ts)) (err invalid_token)
            (ok acc ts) invalid-ne h)))

expect_colon_lem : (ts : List Token) → Ensures (λ colon rest. colon ∷ rest ≡ ts) (expect_colon ts)
unfolding expect_colon is_colon is_invalid_token
expect_colon_lem [] = λ e. cc
expect_colon_lem (t ∷ ts) =
    let bad : Result Token =
      if is_invalid_token t.kind
      then err invalid_token
      else err (token_mismatched TokenKind.colon) in
    if-Ensures (λ colon rest. colon ∷ rest ≡ t ∷ ts) (is_colon t.kind) (ok t ts) bad refl
      (if-Ensures (λ colon rest. colon ∷ rest ≡ t ∷ ts) (is_invalid_token t.kind)
        (err invalid_token) (err (token_mismatched TokenKind.colon)) invalid-ne mismatched-ne)

abbrev pub ExprParses : Bool → (ℕ → List Token → Result Node) → Type 0
ExprParses skippable expr =
    (base : ℕ) (ts : List Token)
    → base ≤ top_prece
    → Ensures (Parsed skippable base ts) (expr base ts)

-- What is asked of the rounds that follow: fewer tokens are left.
abbrev pub NextParses : Bool → ℕ → List Token → ℕ → (Node → List Token → Result Node) → Type 0
NextParses skippable base all size next =
    (n : Node) (ts : List Token)
    → length ts < size
    → Partial skippable base all n ts
    → Ensures (Parsed skippable base all) (next n ts)

module _ (p : Parts) (pr : PartsRead p) (room base : ℕ) (all : List Token)
    (expr : ℕ → List Token → Result Node) (he : ExprParses p.skippable expr)
    (next : Node → List Token → Result Node) (n : Node) (ts : List Token)
    (hn : NextParses p.skippable base all (length ts) next)
    (on : goes_on p.skippable base ts ≡ true) (so_far : Partial p.skippable base all n ts) where
  here : cur_token ts ∷ consume ts ≡ ts
  here = cur_consume p.skippable base ts on

  fewer : length ts ≡ suc (length (consume ts))
  fewer = sym (ap (length {A = Token}) here)

  between : (base ≤ op_prece (cur_token ts)) × (op_prece (cur_token ts) < edge n)
  between = goes_on-between p.skippable ts base (edge n) on so_far.stops

  closed_right :
      (n' : Node) (rest ys : List Token)
      → yield n' ≡ yield n ++ cur_token ts ∷ ys
      → ys ++ rest ≡ consume ts
      → yield n' ++ rest ≡ all
  closed_right n' rest ys e r =
      ap (λ k. k ++ rest) e
      ∙ yield_after (yield n) ys rest (consume ts) ts all (cur_token ts) so_far.reads here r

  step_type : Ensures (Parsed p.skippable base all) (climb_step p room expr next type_case n ts)
  unfolding climb_step
  step_type =
      and_then-Ensures (Reads (consume ts)) (Parsed p.skippable base all)
        (p.type_name room (consume ts)) _ (pr.type_name_reads room (consume ts))
        (λ q rest k.
          hn (type_op n (cur_token ts) q) rest
            (omega (arith, fewer, length-Reads q.tokens rest (consume ts) k))
            (record {
              reads = closed_right (type_op n (cur_token ts) q) rest q.tokens refl k;
              ordered = (so_far.ordered, between.1);
              is_low = omega (arith, between.0, so_far.is_low);
              stops = goes_on-top p.skippable rest;
            }))

  step_with : Ensures (Parsed p.skippable base all) (climb_step p room expr next with_case n ts)
  unfolding climb_step
  step_with =
      and_then-Ensures (ReadsSome (consume ts)) (Parsed p.skippable base all)
        (p.redir_option room (consume ts)) _ (pr.redir_reads room (consume ts))
        (λ q rest k.
          and_then-Ensures (ReadParts (consume ts)) (Parsed p.skippable base all)
            (redirs_loop p room (suc (length rest)) (q ∷ []) rest) _
            (redirs_loop_lem p pr room (suc (length rest)) (q ∷ []) rest (consume ts) (omega arith)
              (ap (λ t. t ++ rest) (append-nil q.tokens) ∙ k.0))
            (λ qs rest' k'.
              hn (with_redirs n (cur_token ts) qs) rest'
                (omega (arith, fewer, length-Reads (part_tokens qs) rest' (consume ts) k'))
                (record {
                  reads =
                      closed_right (with_redirs n (cur_token ts) qs) rest' (part_tokens qs) refl k';
                  ordered = (so_far.ordered, between.1);
                  is_low = omega (arith, between.0, so_far.is_low);
                  stops = goes_on-top p.skippable rest';
                })))

  step_background :
      Ensures (Parsed p.skippable base all) (climb_step p room expr next background_case n ts)
  unfolding climb_step
  step_background = record {
    reads = closed_right (background_fork n (cur_token ts)) (consume ts) [] refl refl;
    ordered = (so_far.ordered, between.1);
    is_low = omega (arith, between.0, so_far.is_low);
    stops = goes_on-top p.skippable (consume ts);
  }

  step_operator :
      Ensures (Parsed p.skippable base all) (climb_step p room expr next operator_case n ts)
  unfolding climb_step
  step_operator =
      and_then-Ensures (Parsed p.skippable (next_prece (cur_kind ts)) (consume ts))
        (Parsed p.skippable base all) (expr (next_prece (cur_kind ts)) (consume ts)) _
        (he (next_prece (cur_kind ts)) (consume ts) (next_prece-le (cur_kind ts)))
        (λ r rest k.
          let k' =
            subst (λ level. Parsed p.skippable level (consume ts) r rest)
              (next_prece-right_kind (cur_kind ts)) k in
          let n' : Node = binary (binary_kind (cur_kind ts)) n (cur_token ts) r in
          hn n' rest (omega (arith, fewer, length-Reads (yield r) rest (consume ts) k'.reads))
            (record {
              reads = closed_right n' rest (yield r) refl k'.reads;
              ordered = (so_far.ordered, between.1, k'.ordered, k'.is_low);
              is_low = omega (arith, between.0, so_far.is_low);
              stops = k'.stops;
            }))

  step_ternary :
      Ensures (Parsed p.skippable base all) (climb_step p room expr next ternary_case n ts)
  unfolding climb_step get_precedence
  step_ternary =
      let level : ℕ = get_precedence TokenKind.ternary in
      and_then-Ensures (Parsed p.skippable level (consume ts)) (Parsed p.skippable base all)
        (expr level (consume ts)) _ (he level (consume ts) (get_precedence-le TokenKind.ternary))
        (λ a rest ka.
          and_then-Ensures (λ colon rest'. colon ∷ rest' ≡ rest) (Parsed p.skippable base all)
            (expect_colon rest) _ (expect_colon_lem rest)
            (λ colon rest' kc.
              and_then-Ensures (Parsed p.skippable level rest') (Parsed p.skippable base all)
                (expr level rest') _ (he level rest' (get_precedence-le TokenKind.ternary))
                (λ b rest'' kb.
                  let n' : Node = ternary_if n (cur_token ts) a colon b in
                  let ys : List Token = yield a ++ colon ∷ yield b in
                  let reads : ys ++ rest'' ≡ consume ts =
                    yield_after (yield a) (yield b) rest'' rest' rest (consume ts) colon ka.reads kc
                      kb.reads in
                  hn n' rest'' (omega (arith, fewer, length-Reads ys rest'' (consume ts) reads))
                    (record {
                      reads = closed_right n' rest'' ys refl reads;
                      ordered =
                          (so_far.ordered, between.1, ka.ordered, ka.is_low, kb.ordered, kb.is_low);
                      is_low = omega (arith, between.0, so_far.is_low);
                      stops = kb.stops;
                    }))))

  pub climb_step_lem :
      (c : InfixCase) → Ensures (Parsed p.skippable base all) (climb_step p room expr next c n ts)
  climb_step_lem type_case = step_type
  climb_step_lem with_case = step_with
  climb_step_lem ternary_case = step_ternary
  climb_step_lem background_case = step_background
  climb_step_lem operator_case = step_operator
