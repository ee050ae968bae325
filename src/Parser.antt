-- ===== src/Parser.antt =====
-- Expressions: `parse_expression` and `parse_unaryExpression` of src/parser.cpp, by precedence
-- climbing. The tokens that the lexer gives are a list, and each says whether a newline or a space
-- stands before it. A call's depth is bounded by the parser's own guard, so the functions are
-- recursion on the room that is left below it. The parsers of suffix expressions, type names and
-- redirections are parameters. There is no code completion.
use ydsh.Prelude.{
  Bool, List, [], false, if◌then◌else◌, leb, length, suc, true, zero, ℕ, ◌&&◌, ◌++◌, ◌+◌, ◌∷◌, not,
}
use ydsh.Parser.Tokens.{TokenKind, get_op_info, is_assign_op, get_precedence, next_prece, is_redir}
mod Tokens
mod Climb
mod Yield
mod Order
mod Total
mod Tests

pub record Token : Type 0 where
  pub kind : TokenKind
  pub pos : ℕ
  pub newline : Bool
  pub space : Bool

-- `MAX_NESTING_DEPTH`.
abbrev pub max_nesting_depth : ℕ
max_nesting_depth = 5000

pub data ParseError : Type 0 where
  deep_nesting : ParseError
  token_mismatched : TokenKind → ParseError
  invalid_token : ParseError
  other_error : ParseError
  -- No error of the parser: the fuel of a loop was too small.
  out_of_fuel : ParseError

-- After an error the callers return at once, so the tokens that are left do not matter.
pub data Result (A : Type 0) : Type 0 where
  ok : A → List Token → Result A
  err : ParseError → Result A

abbrev pub and_then : {A B : Type 0} → Result A → (A → List Token → Result B) → Result B
and_then (ok a ts) f = f a ts
and_then (err e) f = err e

-- What another routine parsed: a number for its tree, and its tokens.
pub record Part : Type 0 where
  pub tree : ℕ
  pub tokens : List Token

-- The routines that are parameters, and whether newlines are skipped (`skippableNewlines.back()`).
pub record Parts : Type 0 where
  pub suffix : ℕ → List Token → Result Part
  pub type_name : ℕ → List Token → Result Part
  pub redir_option : ℕ → List Token → Result Part
  pub skippable : Bool

pub data PrefixKind : Type 0 where
  unary_op : PrefixKind
  throw_node : PrefixKind
  coproc_node : PrefixKind

-- `PipelineNode`, `BinaryOpNode`, and the nodes of `createAssignNode`.
pub data BinaryKind : Type 0 where
  pipeline : BinaryKind
  assignment : BinaryKind
  binary_op : BinaryKind

-- The operators stand in the nodes, so that the tokens can be read off.
pub data Node : Type 0 where
  part : Part → Node
  prefix : PrefixKind → Token → Node → Node
  type_op : Node → Token → Part → Node
  with_redirs : Node → Token → List Part → Node
  ternary_if : Node → Token → Node → Token → Node → Node
  background_fork : Node → Token → Node
  binary : BinaryKind → Node → Token → Node → Node

abbrev pub eos_token : Token
eos_token = record { kind = TokenKind.eos; pos = 0; newline = false; space = false }

-- The current token; at the end the lexer gives EOS again and again.
abbrev pub cur_token : List Token → Token
cur_token [] = eos_token
cur_token (t ∷ ts) = t

abbrev pub cur_kind : List Token → TokenKind
cur_kind ts = (cur_token ts).kind

abbrev pub consume : List Token → List Token
consume [] = []
consume (t ∷ ts) = ts

abbrev pub has_line_terminator : Bool → List Token → Bool
has_line_terminator skippable ts = (cur_token ts).newline && not skippable

pub is_invalid_token : TokenKind → Bool
is_invalid_token TokenKind.invalid = true
is_invalid_token _ = false

pub is_colon : TokenKind → Bool
is_colon TokenKind.colon = true
is_colon _ = false

-- `expectAndChangeMode(COLON, yycSTMT)`.
pub expect_colon : List Token → Result Token
expect_colon ts =
    if is_colon (cur_kind ts)
    then ok (cur_token ts) (consume ts)
    else if is_invalid_token (cur_kind ts)
    then err invalid_token
    else err (token_mismatched TokenKind.colon)

-- The kind of the node that `createBinaryNode` makes. That a pipeline takes a further part into the
-- node it has is how `pipeline` at the left of another is read.
pub is_pipe : TokenKind → Bool
is_pipe TokenKind.pipe = true
is_pipe _ = false

pub binary_kind : TokenKind → BinaryKind
binary_kind k = if is_pipe k then pipeline else if is_assign_op k then assignment else binary_op

abbrev pub create_binary_node : Node → Token → Node → Node
create_binary_node l op r = binary (binary_kind op.kind) l op r

-- The cases of the `switch` of `parse_expression`; AS and IS make the same node.
pub data InfixCase : Type 0 where
  type_case : InfixCase
  with_case : InfixCase
  ternary_case : InfixCase
  background_case : InfixCase
  operator_case : InfixCase

pub infix_case : TokenKind → InfixCase
infix_case TokenKind.as_op = type_case
infix_case TokenKind.is_op = type_case
infix_case TokenKind.with = with_case
infix_case TokenKind.ternary = ternary_case
infix_case TokenKind.background = background_case
infix_case TokenKind.disown_bg = background_case
infix_case _ = operator_case

-- The further redirections of a WITH: each has a space before it. A token for code completion, which
-- is not modelled, ends them like any other.
pub redirs_loop : Parts → ℕ → ℕ → List Part → List Token → Result (List Part)
redirs_loop p room zero acc ts = err out_of_fuel
redirs_loop p room (suc fuel) acc ts =
    let more =
      and_then (p.redir_option room ts) (λ q rest. redirs_loop p room fuel (acc ++ q ∷ []) rest) in
    if not (cur_token ts).space
    then ok acc ts
    else if is_redir (cur_kind ts)
    then more
    else if is_invalid_token (cur_kind ts)
    then err invalid_token
    else ok acc ts

-- Whether the loop of `parse_expression` goes on.
pub goes_on : Bool → ℕ → List Token → Bool
goes_on skippable base ts =
    not (has_line_terminator skippable ts)
    && ((get_op_info (cur_kind ts)).attr.is_infix && leb base (get_op_info (cur_kind ts)).prece)

-- One round of the loop. `expr` is `parse_expression` at the depth of the loop, `next` the rounds
-- that follow.
pub climb_step :
    Parts
    → ℕ
    → (ℕ → List Token → Result Node)
    → (Node → List Token → Result Node)
    → InfixCase
    → Node
    → List Token
    → Result Node
climb_step p room expr next type_case n ts =
    and_then (p.type_name room (consume ts)) (λ q rest. next (type_op n (cur_token ts) q) rest)
climb_step p room expr next with_case n ts = and_then (p.redir_option room (consume ts)) (λ q rest.
    and_then (redirs_loop p room (suc (length rest)) (q ∷ []) rest)
      (λ qs rest'. next (with_redirs n (cur_token ts) qs) rest'))
climb_step p room expr next ternary_case n ts =
    and_then (expr (get_precedence TokenKind.ternary) (consume ts)) (λ a rest.
      and_then (expect_colon rest) (λ colon rest'.
        and_then (expr (get_precedence TokenKind.ternary) rest')
          (λ b rest''. next (ternary_if n (cur_token ts) a colon b) rest'')))
climb_step p room expr next background_case n ts =
    ok (background_fork n (cur_token ts)) (consume ts)
climb_step p room expr next operator_case n ts =
    and_then (expr (next_prece (cur_kind ts)) (consume ts))
      (λ r rest. next (create_binary_node n (cur_token ts) r) rest)

-- The loop of `parse_expression`, with the node that is parsed so far.
pub climb : Parts → ℕ → (ℕ → List Token → Result Node) → ℕ → ℕ → Node → List Token → Result Node
climb p room expr zero base n ts = err out_of_fuel
climb p room expr (suc fuel) base n ts =
    let next = climb p room expr fuel base in
    if goes_on p.skippable base ts
    then climb_step p room expr next (infix_case (cur_kind ts)) n ts
    else ok n ts

-- The cases of the `switch` of `parse_unaryExpression`.
pub data UnaryCase : Type 0 where
  sign_case : UnaryCase
  throw_case : UnaryCase
  coproc_case : UnaryCase
  suffix_case : UnaryCase

pub unary_case : TokenKind → UnaryCase
unary_case TokenKind.plus = sign_case
unary_case TokenKind.minus = sign_case
unary_case TokenKind.not = sign_case
unary_case TokenKind.throw = throw_case
unary_case TokenKind.coproc = coproc_case
unary_case _ = suffix_case

pub unary_step :
    Parts
    → ℕ
    → (List Token → Result Node)
    → (ℕ → List Token → Result Node)
    → UnaryCase
    → List Token
    → Result Node
unary_step p room unary expr sign_case ts =
    and_then (unary (consume ts)) (λ n rest. ok (prefix unary_op (cur_token ts) n) rest)
unary_step p room unary expr throw_case ts =
    and_then (expr (get_precedence TokenKind.throw) (consume ts))
      (λ n rest. ok (prefix throw_node (cur_token ts) n) rest)
unary_step p room unary expr coproc_case ts =
    and_then (expr (get_precedence TokenKind.coproc) (consume ts))
      (λ n rest. ok (prefix coproc_node (cur_token ts) n) rest)
unary_step p room unary expr suffix_case ts =
    and_then (p.suffix room ts) (λ q rest. ok (part q) rest)

-- `GUARD_DEEP_NESTING`: the room is what the call leaves below the limit.
abbrev pub guard_deep_nesting : ℕ → Result Node → Result Node
guard_deep_nesting zero body = err deep_nesting
guard_deep_nesting (suc room) body = body

mutual
  pub parse_expression : Parts → ℕ → ℕ → List Token → Result Node
  parse_expression p zero base ts = err deep_nesting
  parse_expression p (suc room) base ts = guard_deep_nesting room (
      and_then (parse_unary p room ts)
        (λ n rest. climb p room (parse_expression p room) (suc (length rest)) base n rest))

  pub parse_unary : Parts → ℕ → List Token → Result Node
  parse_unary p zero ts = err deep_nesting
  parse_unary p (suc room) ts = guard_deep_nesting room (
      unary_step p room (parse_unary p room) (parse_expression p room) (unary_case (cur_kind ts))
        ts)

-- `parse_expression()` of a parser that no call has entered.
pub parse_all : Parts → List Token → Result Node
parse_all p ts = parse_expression p max_nesting_depth (get_precedence TokenKind.assign) ts
