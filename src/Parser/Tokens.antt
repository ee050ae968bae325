-- ===== src/Parser/Tokens.antt =====
-- Token kinds and the operators among them: src/token_kind.h, and `getOpInfo` and `isAssignOp` of
-- src/lexer.cpp. The names are those of the source, but where a word is taken.
use ydsh.Prelude.{Bool, false, if◌then◌else◌, true, ℕ, ◌+◌}

pub data TokenKind : Type 0 where
  invalid : TokenKind
  eos : TokenKind
  completion : TokenKind
  alias : TokenKind
  assert : TokenKind
  break : TokenKind
  case_word : TokenKind
  catch : TokenKind
  class : TokenKind
  continue : TokenKind
  coproc : TokenKind
  do_word : TokenKind
  elif : TokenKind
  else_word : TokenKind
  export_env : TokenKind
  finally : TokenKind
  for : TokenKind
  function : TokenKind
  if_word : TokenKind
  import_env : TokenKind
  interface : TokenKind
  let_word : TokenKind
  new_word : TokenKind
  return : TokenKind
  source : TokenKind
  source_opt : TokenKind
  try : TokenKind
  throw : TokenKind
  typedef : TokenKind
  var : TokenKind
  while : TokenKind
  plus : TokenKind
  minus : TokenKind
  not : TokenKind
  int_literal : TokenKind
  float_literal : TokenKind
  string_literal : TokenKind
  regex_literal : TokenKind
  signal_literal : TokenKind
  open_dquote : TokenKind
  start_sub_cmd : TokenKind
  start_in_sub : TokenKind
  start_out_sub : TokenKind
  at_paren : TokenKind
  applied_name : TokenKind
  special_name : TokenKind
  lp : TokenKind
  rp : TokenKind
  lb : TokenKind
  rb : TokenKind
  lbc : TokenKind
  rbc : TokenKind
  command : TokenKind
  env_assign : TokenKind
  colon : TokenKind
  comma : TokenKind
  add : TokenKind
  sub : TokenKind
  mul : TokenKind
  div : TokenKind
  mod_op : TokenKind
  lt : TokenKind
  gt : TokenKind
  le : TokenKind
  ge : TokenKind
  eq : TokenKind
  ne : TokenKind
  and : TokenKind
  or : TokenKind
  xor : TokenKind
  cond_and : TokenKind
  cond_or : TokenKind
  null_coale : TokenKind
  match : TokenKind
  unmatch : TokenKind
  str_check : TokenKind
  ternary : TokenKind
  inc : TokenKind
  dec : TokenKind
  unwrap : TokenKind
  assign : TokenKind
  add_assign : TokenKind
  sub_assign : TokenKind
  mul_assign : TokenKind
  div_assign : TokenKind
  mod_assign : TokenKind
  str_assign : TokenKind
  null_assign : TokenKind
  case_arm : TokenKind
  as_op : TokenKind
  func : TokenKind
  in_op : TokenKind
  is_op : TokenKind
  typeof : TokenKind
  with : TokenKind
  identifier : TokenKind
  accessor : TokenKind
  line_end : TokenKind
  new_line : TokenKind
  close_dquote : TokenKind
  str_element : TokenKind
  start_interp : TokenKind
  cmd_arg_part : TokenKind
  applied_name_with_bracket : TokenKind
  special_name_with_bracket : TokenKind
  applied_name_with_paren : TokenKind
  applied_name_with_field : TokenKind
  glob_any : TokenKind
  glob_zero_or_more : TokenKind
  path_sep : TokenKind
  redir_in_2_file : TokenKind
  redir_out_2_file : TokenKind
  redir_out_2_file_append : TokenKind
  redir_err_2_file : TokenKind
  redir_err_2_file_append : TokenKind
  redir_merge_err_2_out_2_file : TokenKind
  redir_merge_err_2_out_2_file_append : TokenKind
  redir_merge_err_2_out : TokenKind
  redir_merge_out_2_err : TokenKind
  redir_here_str : TokenKind
  pipe : TokenKind
  background : TokenKind
  disown_bg : TokenKind
  type_open : TokenKind
  type_close : TokenKind
  type_sep : TokenKind
  type_dot : TokenKind
  atype_open : TokenKind
  atype_close : TokenKind
  ptype_open : TokenKind
  ptype_close : TokenKind
  type_msep : TokenKind
  type_opt : TokenKind
  type_arrow : TokenKind

-- The flags of `OperatorAttr`.
pub record OperatorAttr : Type 0 where
  pub is_infix : Bool
  pub is_prefix : Bool
  pub is_rassoc : Bool

pub record OperatorInfo : Type 0 where
  pub prece : ℕ
  pub attr : OperatorAttr

abbrev pub no_attr : OperatorAttr
no_attr = record { is_infix = false; is_prefix = false; is_rassoc = false }

abbrev pub infix_attr : OperatorAttr
infix_attr = record { is_infix = true; is_prefix = false; is_rassoc = false }

abbrev pub prefix_attr : OperatorAttr
prefix_attr = record { is_infix = false; is_prefix = true; is_rassoc = false }

abbrev pub infix_rassoc : OperatorAttr
infix_rassoc = record { is_infix = true; is_prefix = false; is_rassoc = true }

abbrev pub prefix_rassoc : OperatorAttr
prefix_rassoc = record { is_infix = false; is_prefix = true; is_rassoc = true }

abbrev pub info : ℕ → OperatorAttr → OperatorInfo
info p a = record { prece = p; attr = a }

unfoldable pub get_op_info : TokenKind → OperatorInfo
get_op_info is_op = info 17 infix_attr
get_op_info as_op = info 17 infix_attr
get_op_info mul = info 16 infix_attr
get_op_info div = info 16 infix_attr
get_op_info mod_op = info 16 infix_attr
get_op_info add = info 15 infix_attr
get_op_info sub = info 15 infix_attr
get_op_info and = info 14 infix_attr
get_op_info xor = info 13 infix_attr
get_op_info or = info 12 infix_attr
get_op_info null_coale = info 11 infix_rassoc
get_op_info lt = info 10 infix_attr
get_op_info gt = info 10 infix_attr
get_op_info le = info 10 infix_attr
get_op_info ge = info 10 infix_attr
get_op_info eq = info 10 infix_attr
get_op_info ne = info 10 infix_attr
get_op_info match = info 10 infix_attr
get_op_info unmatch = info 10 infix_attr
get_op_info str_check = info 10 infix_attr
get_op_info with = info 9 infix_attr
get_op_info env_assign = info 8 prefix_attr
get_op_info pipe = info 7 infix_attr
get_op_info cond_and = info 6 infix_attr
get_op_info cond_or = info 5 infix_attr
get_op_info ternary = info 4 infix_attr
get_op_info throw = info 3 prefix_rassoc
get_op_info coproc = info 3 prefix_rassoc
get_op_info background = info 2 infix_attr
get_op_info disown_bg = info 2 infix_attr
get_op_info assign = info 1 infix_rassoc
get_op_info add_assign = info 1 infix_rassoc
get_op_info sub_assign = info 1 infix_rassoc
get_op_info mul_assign = info 1 infix_rassoc
get_op_info div_assign = info 1 infix_rassoc
get_op_info mod_assign = info 1 infix_rassoc
get_op_info str_assign = info 1 infix_rassoc
get_op_info null_assign = info 1 infix_rassoc
get_op_info _ = info 0 no_attr

unfoldable pub is_assign_op : TokenKind → Bool
is_assign_op assign = true
is_assign_op add_assign = true
is_assign_op sub_assign = true
is_assign_op mul_assign = true
is_assign_op div_assign = true
is_assign_op mod_assign = true
is_assign_op str_assign = true
is_assign_op null_assign = true
is_assign_op _ = false

unfoldable pub get_precedence : TokenKind → ℕ
unfolding get_op_info
get_precedence k = (get_op_info k).prece

unfoldable pub is_infix_op : TokenKind → Bool
unfolding get_op_info
is_infix_op k = (get_op_info k).attr.is_infix

unfoldable pub is_right_assoc : TokenKind → Bool
unfolding get_op_info
is_right_assoc k = (get_op_info k).attr.is_rassoc

-- The precedence at which the right operand of an infix operator is parsed.
unfoldable pub next_prece : TokenKind → ℕ
unfolding get_op_info
next_prece k = (get_op_info k).prece + (if (get_op_info k).attr.is_rassoc then 0 else 1)

-- `EACH_LA_redir`.
unfoldable pub is_redir : TokenKind → Bool
is_redir redir_in_2_file = true
is_redir redir_out_2_file = true
is_redir redir_out_2_file_append = true
is_redir redir_err_2_file = true
is_redir redir_err_2_file_append = true
is_redir redir_merge_err_2_out_2_file = true
is_redir redir_merge_err_2_out_2_file_append = true
is_redir redir_here_str = true
is_redir redir_merge_err_2_out = true
is_redir redir_merge_out_2_err = true
is_redir _ = false
