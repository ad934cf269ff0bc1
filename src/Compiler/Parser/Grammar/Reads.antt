-- ===== src/Compiler/Parser/Grammar/Reads.antt =====
-- The parser reads the tokens of a tree, and emits the code that the tree stands for.
use lox_vm.Prelude.{
  ℕ, suc, ◌≤◌, ◌<◌, ◌≡◌, refl, ap, ◌∙◌, true, ◌&&◌, some, List, [], ◌∷◌, ◌++◌, append_assoc, arith,
  ltb, leb,
}
use lox_vm.Shared.Bytecode.{op_get_array_length}
use lox_vm.Compiler.Scanner.Tokens.{
  Token, token_open_paren, token_close_paren, token_identifier, token_string, token_number,
  token_len,
}
use lox_vm.Compiler.Chunk.{Chunk}
use lox_vm.Compiler.Parser.State.{ok, ◌>>=◌, Compiler, Services}
use lox_vm.Compiler.Parser.Emit.{current_chunk}
use lox_vm.Compiler.Chunk.Writes.{IsChunk, written}
use lox_vm.Compiler.Parser.Rules.{prec_assignment, get_rule}
use lox_vm.Compiler.Parser.Expressions.{call_prefix, parse_precedence}
use lox_vm.Compiler.Parser.Grammar.{
  spelled, Expr, constant, numeral, text_constant, name, group, array_size, unary_expr, binary_expr,
  literal_type, unary_type, binary_type, binding, print_expr, level, well_bracketed, operator_code,
  prefix_code, generate, depth_of, names,
}
use lox_vm.Compiler.Parser.Grammar.Reading.{reading, Leads-code}
use lox_vm.Compiler.Parser.Grammar.Writing.{Leads-some}
use lox_vm.Compiler.Parser.Grammar.Atoms.{
  start, number_expression-Leads, string_expression-Leads, variable-Leads,
}
use lox_vm.Compiler.Parser.Grammar.Followers.{ends, ends-Stops}
use lox_vm.Compiler.Parser.Grammar.Shape.{
  operand_depth, precedence_of, precedence_of_operator, ends-binary, prefix_of, both, leb-≤, ltb-<,
  sequence-some, followed_by-some, readable-ends, readable-print_expr, spine-depth,
}
use lox_vm.Compiler.Parser.Grammar.Parts.{
  suffix_loop, ReadsPrefix, whole, literal-Leads, readable-enclosed, grouping-Leads,
  array_length-Leads, unary-Leads, binary-Leads, loop_step, by_token,
}

module _ (services : Services) (compiler : Compiler) where
  pub prefix : (e : Expr) → ReadsPrefix services compiler e
  unfolding print_expr generate depth_of well_bracketed get_rule call_prefix
  prefix (constant l s) p fuel rounds prev n rest chunk code constants bytes after all enough fits
        closes below bracketed holding h =
      by_token services compiler p fuel rounds prev (spelled (literal_type l) s) (n ∷ rest)
        (n ∷ rest) chunk all (readable-ends n rest closes)
        (Leads-some code h (
          literal-Leads services compiler l s fuel (leb p prec_assignment) (n ∷ rest) chunk
            holding))
  prefix (numeral s) p fuel rounds prev n rest chunk code constants bytes after all enough fits
        closes below bracketed holding h =
      by_token services compiler p fuel rounds prev (spelled token_number s) (n ∷ rest) (n ∷ rest)
        chunk all (readable-ends n rest closes)
        (number_expression-Leads services compiler s (n ∷ rest) chunk code constants holding
          (leb p prec_assignment) bytes after h)
  prefix (text_constant s) p fuel rounds prev n rest chunk code constants bytes after all enough
        fits closes below bracketed holding h =
      by_token services compiler p fuel rounds prev (spelled token_string s) (n ∷ rest) (n ∷ rest)
        chunk all (readable-ends n rest closes)
        (string_expression-Leads services compiler s (n ∷ rest) chunk code constants holding
          token_string (leb p prec_assignment) bytes after h)
  prefix (name s) p fuel rounds prev n rest chunk code constants bytes after all enough fits closes
        below bracketed holding h =
      by_token services compiler p fuel rounds prev (spelled token_identifier s) (n ∷ rest)
        (n ∷ rest) chunk all (readable-ends n rest closes)
        (variable-Leads services fuel (parse_precedence services fuel) compiler s n rest chunk
          (ends-Stops n.type closes) bytes after holding (leb p prec_assignment) h)
  prefix (group s e s₁) p fuel rounds prev n rest chunk code constants bytes after all enough fits
        closes below bracketed holding h =
      by_token services compiler p fuel rounds prev (spelled token_open_paren s)
        ((print_expr e ++ spelled token_close_paren s₁ ∷ []) ++ n ∷ rest) (n ∷ rest) chunk all
        (readable-enclosed services compiler e s₁ (n ∷ rest))
        (grouping-Leads services compiler e fuel (spelled token_open_paren s) s₁ n rest chunk
          (leb p prec_assignment) (prefix e) (operand_depth enough) closes bracketed holding h)
  prefix (array_size s s₁ e s₂) p fuel rounds prev n rest chunk code constants bytes after all
        enough fits closes below bracketed holding h =
      let (inner, made, whole_code) =
        followed_by-some (generate services (names compiler) e constants) (op_get_array_length ∷ [])
          h in
      by_token services compiler p fuel rounds prev (spelled token_len s)
        (spelled token_open_paren s₁
          ∷ ((print_expr e ++ spelled token_close_paren s₂ ∷ []) ++ n ∷ rest))
        (n ∷ rest) chunk all refl
        (Leads-code (ap (λ xs. code ++ xs) whole_code) (
          array_length-Leads services compiler e fuel (spelled token_len s) s₁ s₂ n rest chunk
            (leb p prec_assignment) (prefix e) (operand_depth enough) closes bracketed holding
            made))
  prefix (unary_expr o s e) p fuel rounds prev n rest chunk code constants bytes after all enough
        fits closes below bracketed holding h =
      let (inner, made, whole_code) =
        followed_by-some (generate services (names compiler) e constants) (prefix_code o) h in
      let parts = both bracketed in
      by_token services compiler p fuel rounds prev (spelled (unary_type o) s)
        (print_expr e ++ n ∷ rest) (n ∷ rest) chunk all (readable-print_expr e (n ∷ rest))
        (rw (prefix_of o) (
          Leads-code (ap (λ xs. code ++ xs) whole_code) (
            unary-Leads services compiler o e fuel s n rest chunk (leb p prec_assignment) (prefix e)
              (operand_depth enough) closes (leb-≤ parts.0) parts.1 holding made)))
  prefix (binary_expr o l s r) p fuel rounds prev n rest chunk code constants bytes after all enough
        fits closes below bracketed holding h =
      let (bl, middle, br, made_l, made_r, whole_code) =
        sequence-some (generate services (names compiler) l constants)
          (generate services (names compiler) r) (operator_code o) h in
      let (left, others) =
        both {a = leb (binding o) (level l)}
          {b = ltb (binding o) (level r) && (well_bracketed l && well_bracketed r)} bracketed in
      let (right, inside) =
        both {a = ltb (binding o) (level r)} {b = well_bracketed l && well_bracketed r} others in
      let (bracketed_l, bracketed_r) = both {a = well_bracketed l} {b = well_bracketed r} inside in
      let left_tight : binding o ≤ level l = leb-≤ left in
      let sign = spelled (binary_type o) s in
      let first =
        prefix l p fuel (suc rounds) prev sign (print_expr r ++ n ∷ rest) chunk code constants bl
          middle (omega (arith, all)) (omega (arith, enough, spine-depth r))
          (omega (arith, fits, left_tight)) (ends-binary o)
          (rw (precedence_of_operator o) (left_tight)) bracketed_l holding made_l in
      let second =
        binary-Leads services compiler o r fuel s n rest first.chunk (leb p prec_assignment)
          (prefix r) (omega (arith, enough, spine-depth l)) closes (ltb-< right) below bracketed_r
          first.holding made_r in
      let tokens = append_assoc (print_expr l) (sign ∷ print_expr r) (n ∷ rest) in
      record {
        last = second.last;
        chunk = second.chunk;
        ran =
            ap
              (λ ts.
                start services fuel p (reading compiler prev ts chunk)
                >>= suffix_loop services compiler fuel fuel p)
              tokens
            ∙ first.ran
            ∙ loop_step services compiler o s p fuel rounds first.last (print_expr r ++ n ∷ rest)
                first.chunk fits (readable-print_expr r (n ∷ rest))
            ∙ ap (λ m. m >>= suffix_loop services compiler fuel rounds p) second.ran;
        holding = record {
          valid = second.holding.valid;
          code_is =
              second.holding.code_is ∙ append_assoc code bl _ ∙ ap (λ xs. code ++ xs) whole_code;
          constants_are = second.holding.constants_are;
        };
      }

-- With enough fuel parse_precedence reads the tokens of a well bracketed tree, whose outermost operator binds
-- at least as tightly as the precedence asks for, up to a token that may follow and binds less tightly. It
-- appends the code that the tree generates to the chunk, and its constants to the table, and changes nothing
-- else of the compiler than its place in the tokens.
pub parse_precedence-generate :
    (services : Services) (compiler : Compiler) (e : Expr) (precedence fuel : ℕ) (n : Token)
    (rest : List Token) (bytes after : List ℕ)
    → IsChunk (current_chunk compiler)
    → compiler.current ∷ compiler.tokens ≡ print_expr e ++ n ∷ rest
    → well_bracketed e ≡ true
    → 1 ≤ precedence
    → precedence ≤ level e
    → ends n.type ≡ true
    → precedence_of n < precedence
    → depth_of e ≤ fuel
    → generate services (names compiler) e (current_chunk compiler).constants ≡ some (bytes, after)
    → (last : Token) × (chunk : Chunk) × (parse_precedence services fuel precedence compiler
        ≡ ok (reading compiler last (n ∷ rest) chunk))
      × IsChunk chunk
      × (written chunk ≡ written (current_chunk compiler) ++ bytes)
      × (chunk.constants ≡ after)
parse_precedence-generate services compiler e precedence fuel n rest bytes after valid tokens
      bracketed some_level fits closes below enough h =
    let chunk = current_chunk compiler in
    let r =
      whole services compiler e (prefix services compiler e) precedence fuel compiler.previous n
        rest chunk (written chunk) chunk.constants bytes after enough fits some_level closes below
        bracketed (record { valid = valid; code_is = refl; constants_are = refl }) h in
    let read =
      ap
        (λ ts.
          parse_precedence services fuel precedence (reading compiler compiler.previous ts chunk))
        tokens in
    (r.last, r.chunk, read ∙ r.ran, r.holding.valid, r.holding.code_is, r.holding.constants_are)
