-- ===== src/Parser/Total.antt =====
-- `parse_expression` as a whole, on every input.
use ydsh.Prelude.{Bool, List, ℕ}
use ydsh.Parser.{Token, Result, Parts, Node, parse_expression, parse_unary}
use ydsh.Parser.Yield.{Ensures}
use ydsh.Parser.Order.{top_prece}
use ydsh.Parser.Climb.{Parsed, ExprParses}

abbrev UnaryParses : Bool → (List Token → Result Node) → Type 0
UnaryParses skippable unary = (ts : List Token) → Ensures (Parsed skippable top_prece ts) (unary ts)

abbrev BothParse : Parts → ℕ → Type 0
BothParse p room =
    ExprParses p.skippable (parse_expression p room) × UnaryParses p.skippable (parse_unary p room)
