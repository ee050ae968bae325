-- ===== src/Parser/Tests.antt =====
-- Tests of the expression parser, with literals for operands, and its theorem at one input.
use ydsh.Prelude.{List, [], false, if◌then◌else◌, refl, true, ℕ, ◌==◌, ◌∷◌, ◌≡◌}
use ydsh.Parser.Tokens.{TokenKind, get_op_info, next_prece, is_assign_op, get_precedence}
use ydsh.Parser.{
  Token, other_error, deep_nesting, Result, ok, err, Part, Parts, Node, part, prefix, throw_node,
  binary, binary_op, assignment, parse_expression, token_mismatched, unary_step, unary_case, climb,
  goes_on, climb_step, infix_case, binary_kind, is_pipe, expect_colon, is_colon, is_invalid_token,
}

abbrev token : TokenKind → ℕ → Token
token k i = record { kind = k; pos = i; newline = false; space = true }

abbrev literal : Token → Part
literal t = record { tree = t.pos; tokens = t ∷ [] }

-- A literal is read as an operand.
abbrev read_literal : ℕ → List Token → Result Part
read_literal room [] = err other_error
read_literal room (t ∷ ts) = if t.pos == 0 then err other_error else ok (literal t) ts

abbrev literals : Parts
literals = record {
  suffix = read_literal;
  type_name = read_literal;
  redir_option = λ room ts. err other_error;
  skippable = false;
}

abbrev one : Token
one = token TokenKind.int_literal 1

abbrev two : Token
two = token TokenKind.int_literal 2

abbrev three : Token
three = token TokenKind.int_literal 3

abbrev op : TokenKind → Token
op k = token k 0

abbrev leaf : Token → Node
leaf t = part (literal t)

-- 1 + 2 * 3
sum_of_product :
    parse_expression literals 9 1 (one ∷ op TokenKind.add ∷ two ∷ op TokenKind.mul ∷ three ∷ [])
    ≡ ok
        (binary binary_op
          (leaf one)
          (op TokenKind.add)
          (binary binary_op (leaf two) (op TokenKind.mul) (leaf three)))
        []
unfolding parse_expression unary_step unary_case climb goes_on get_op_info climb_step infix_case
    next_prece binary_kind is_pipe is_assign_op
sum_of_product = refl

-- 1 - 2 - 3
from_the_left :
    parse_expression literals 9 1 (one ∷ op TokenKind.sub ∷ two ∷ op TokenKind.sub ∷ three ∷ [])
    ≡ ok
        (binary binary_op
          (binary binary_op (leaf one) (op TokenKind.sub) (leaf two))
          (op TokenKind.sub)
          (leaf three))
        []
unfolding parse_expression unary_step unary_case climb goes_on get_op_info climb_step infix_case
    next_prece binary_kind is_pipe is_assign_op
from_the_left = refl

-- 1 = 2 = 3
from_the_right :
    parse_expression literals 9 1
      (one ∷ op TokenKind.assign ∷ two ∷ op TokenKind.assign ∷ three ∷ [])
    ≡ ok
        (binary assignment
          (leaf one)
          (op TokenKind.assign)
          (binary assignment (leaf two) (op TokenKind.assign) (leaf three)))
        []
unfolding parse_expression unary_step unary_case climb goes_on get_op_info climb_step infix_case
    next_prece binary_kind is_pipe is_assign_op
from_the_right = refl

-- throw 1 || 2
throw_takes_all :
    parse_expression literals 9 1 (op TokenKind.throw ∷ one ∷ op TokenKind.cond_or ∷ two ∷ [])
    ≡ ok
        (prefix throw_node
          (op TokenKind.throw)
          (binary binary_op (leaf one) (op TokenKind.cond_or) (leaf two)))
        []
unfolding parse_expression unary_step unary_case climb goes_on get_op_info get_precedence climb_step
    infix_case binary_kind is_pipe is_assign_op
throw_takes_all = refl

-- 1 ? 2 ; 3
no_colon :
    parse_expression literals 9 1
      (one ∷ op TokenKind.ternary ∷ two ∷ op TokenKind.line_end ∷ three ∷ [])
    ≡ err (token_mismatched TokenKind.colon)
unfolding parse_expression unary_step unary_case climb goes_on get_op_info climb_step infix_case
    expect_colon is_colon is_invalid_token
no_colon = refl

-- A newline before an operator ends the expression.
ends_at_newline :
    parse_expression literals 9 1 (one ∷ record (op TokenKind.add) { newline = true } ∷ two ∷ [])
    ≡ ok (leaf one) (record (op TokenKind.add) { newline = true } ∷ two ∷ [])
unfolding parse_expression unary_step unary_case climb goes_on
ends_at_newline = refl

too_deep :
    parse_expression literals 4 1
      (op TokenKind.minus ∷ op TokenKind.minus ∷ op TokenKind.minus ∷ one ∷ [])
    ≡ err deep_nesting
unfolding parse_expression unary_step unary_case
too_deep = refl
