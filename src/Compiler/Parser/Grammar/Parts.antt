-- ===== src/Compiler/Parser/Grammar/Parts.antt =====
-- The handlers of the composite expressions, on trees whose parts are read, and the loop over suffixes.
use lox_vm.Prelude.{
  ℕ, suc, ◌+◌, ◌-◌, ◌≤◌, ◌<◌, String, ◌≡◌, refl, sym, ap, ◌∙◌, Bool, true, false, some, List, [],
  ◌∷◌, ◌++◌, append_assoc, arith, leb, ◌==◌,
}
use lox_vm.Shared.Bytecode.{op_nil, op_true, op_false, op_get_array_length, opcode}
use lox_vm.Compiler.Scanner.Tokens.{
  Token, TokenType, token_open_paren, token_close_paren, token_false, token_nil, token_true,
}
use lox_vm.Compiler.Chunk.{Chunk}
use lox_vm.Compiler.Parser.State.{Result, ok, ◌>>=◌, joined_rest, Compiler, Services, Step}
use lox_vm.Compiler.Parser.Tokens.{token_code, advance_compiler, check, match_token, consume}
use lox_vm.Compiler.Parser.Rules.{prec_assignment, prec_unary, get_rule}
use lox_vm.Compiler.Parser.Variables.{expression}
use lox_vm.Compiler.Parser.Expressions.{
  emit_all, unary_code, binary_code, literal, grouping, unary, binary, array_length, call_prefix,
  call_suffix, parse_suffixes, check_target, parse_precedence,
}
use lox_vm.Compiler.Parser.Grammar.{
  Spelling, spelled, Literal, literal_false, literal_true, literal_nil, UnaryOperator, negation,
  complement, BinaryOperator, equal_to, not_equal, less, less_or_equal, greater, greater_or_equal,
  plus, minus, remainder, conjunction, disjunction, left_shift, right_shift, times, divided_by,
  Expr, literal_type, unary_type, binary_type, binding, print_expr, level, well_bracketed, byte_of,
  bytes_of_all, operator_code, prefix_code, constant_code, generate, depth_of, names,
}
use lox_vm.Compiler.Parser.Grammar.Reading.{
  reading, readable, advance_compiler-reading, Holding, Leads, Leads-bind, Leads-code,
}
use lox_vm.Compiler.Parser.Grammar.Writing.{emit_bytecode-Leads, emit_all-Leads}
use lox_vm.Compiler.Parser.Grammar.Atoms.{start, advance_then}
use lox_vm.Compiler.Parser.Grammar.Followers.{ends, ends-Stops}
use lox_vm.Compiler.Parser.Grammar.Shape.{
  spine, precedence_of, level-least, ends-loose, precedence_of_operator, suffix_of, readable-ends,
  readable-print_expr, spine-depth,
}

module _ (services : Services) (compiler : Compiler) where
  -- the loop with its number of rounds and its fuel
  abbrev pub suffix_loop : ℕ → ℕ → ℕ → Step
  suffix_loop fuel rounds precedence =
      parse_suffixes services fuel (parse_precedence services fuel) rounds precedence
        (leb precedence prec_assignment)

  -- A run that goes on as another does before the tokens, with the content.
  pub record Continues (m : Result Compiler) (next : Step) (tokens : List Token)
      (code constants : List ℕ) : Type 0 where
    pub last : Token
    pub chunk : Chunk
    pub ran : m ≡ next (reading compiler last tokens chunk)
    pub holding : Holding chunk code constants

  -- What the parser does with the tokens of a tree, before the loop and in it.
  abbrev pub ReadsPrefix : Expr → Type 0
  ReadsPrefix e =
      (precedence fuel rounds : ℕ) (prev n : Token) (rest : List Token) (chunk : Chunk)
      (code constants bytes after : List ℕ)
      → fuel ≡ rounds + spine e
      → depth_of e ≤ suc fuel
      → precedence ≤ level e
      → ends n.type ≡ true
      → precedence_of n ≤ level e
      → well_bracketed e ≡ true
      → Holding chunk code constants
      → generate services (names compiler) e constants ≡ some (bytes, after)
      → Continues
          (start services fuel precedence (reading compiler prev (print_expr e ++ n ∷ rest) chunk)
            >>= suffix_loop fuel fuel precedence)
          (suffix_loop fuel rounds precedence) (n ∷ rest) (code ++ bytes) after

  -- A whole call of parse_precedence.
  abbrev pub ReadsWhole : Expr → Type 0
  ReadsWhole e =
      (precedence fuel : ℕ) (prev n : Token) (rest : List Token) (chunk : Chunk)
      (code constants bytes after : List ℕ)
      → depth_of e ≤ fuel
      → precedence ≤ level e
      → 1 ≤ precedence
      → ends n.type ≡ true
      → precedence_of n < precedence
      → well_bracketed e ≡ true
      → Holding chunk code constants
      → generate services (names compiler) e constants ≡ some (bytes, after)
      → Leads
          (parse_precedence services fuel precedence
            (reading compiler prev (print_expr e ++ n ∷ rest) chunk))
          compiler (n ∷ rest) (code ++ bytes) after

  pub loop_ends :
      (precedence fuel rounds : ℕ) (last n : Token) (rest : List Token) (chunk : Chunk)
      → precedence_of n < precedence
      → suffix_loop fuel (suc rounds) precedence (reading compiler last (n ∷ rest) chunk)
        ≡ ok (reading compiler last (n ∷ rest) chunk)
  unfolding parse_suffixes
  loop_ends precedence fuel rounds last n rest chunk below =
      let stop : leb precedence (precedence_of n) ≡ false = ground (arith, below) in
      rw (parse_suffixes, stop) refl

  pub check_target-passes :
      (can_assign : Bool) (last n : Token) (rest : List Token) (chunk : Chunk)
      → ends n.type ≡ true
      → check_target can_assign (reading compiler last (n ∷ rest) chunk)
        ≡ ok (reading compiler last (n ∷ rest) chunk)
  unfolding check_target match_token check
  check_target-passes false last n rest chunk closes = refl
  check_target-passes true last n rest chunk closes =
      let stops = ends-Stops n.type closes in rw stops.no_assignment refl

  pub parse-start :
      (fuel precedence : ℕ) (c : Compiler)
      → parse_precedence services (suc fuel) precedence c ≡ (
          start services fuel precedence c
          >>= suffix_loop fuel fuel precedence
          >>= check_target (leb precedence prec_assignment))
  unfolding parse_precedence
  parse-start fuel precedence c =
      let can_assign = leb precedence prec_assignment in
      let after_prefix =
        λ (d : Compiler). suffix_loop fuel fuel precedence d >>= check_target can_assign in
      sym (
        joined_rest (suffix_loop fuel fuel precedence) (check_target can_assign)
          (start services fuel precedence c)
        ∙ joined_rest
            (λ d.
              call_prefix services fuel (parse_precedence services fuel)
                (get_rule d.previous.type).prefix can_assign d)
            after_prefix (advance_compiler c))

  pub whole : (e : Expr) → ReadsPrefix e → ReadsWhole e
  whole e prefix precedence fuel prev n rest chunk code constants bytes after enough fits some_level
        closes below bracketed holding h =
      let rounds = fuel - spine e - 2 in
      let small = suc rounds + spine e in
      let size : fuel ≡ suc small = omega (arith, spine-depth e, enough) in
      let r =
        prefix precedence small (suc rounds) prev n rest chunk code constants bytes after refl
          (omega (arith, size, enough)) fits closes (omega arith) bracketed holding h in
      let can_assign = leb precedence prec_assignment in
      let check_all = ap (λ m. m >>= check_target can_assign) in
      record {
        last = r.last;
        chunk = r.chunk;
        ran =
            ap
              (λ k.
                parse_precedence services k precedence
                  (reading compiler prev (print_expr e ++ n ∷ rest) chunk))
              size
            ∙ parse-start small precedence (reading compiler prev (print_expr e ++ n ∷ rest) chunk)
            ∙ check_all (r.ran ∙ loop_ends precedence small rounds r.last n rest r.chunk below)
            ∙ check_target-passes can_assign r.last n rest r.chunk closes;
        holding = r.holding;
      }

  pub at_once :
      (c : Compiler) (tokens : List Token) {code constants : List ℕ} (precedence fuel rounds : ℕ)
      → fuel ≡ rounds + 0
      → Leads (start services fuel precedence c) compiler tokens code constants
      → Continues
          (start services fuel precedence c >>= suffix_loop fuel fuel precedence)
          (suffix_loop fuel rounds precedence)
          tokens
          code
          constants
  at_once c tokens precedence fuel rounds all l =
      let same : fuel ≡ rounds = omega (arith, all) in
      record {
        last = l.last;
        chunk = l.chunk;
        ran =
            ap (λ m. m >>= suffix_loop fuel fuel precedence) l.ran
            ∙ ap (λ k. suffix_loop fuel k precedence (reading compiler l.last tokens l.chunk)) same;
        holding = l.holding;
      }

  pub literal-Leads :
      (l : Literal) (s : Spelling) (fuel : ℕ) (can_assign : Bool) (ts : List Token) (chunk : Chunk)
      {code constants : List ℕ}
      → Holding chunk code constants
      → Leads
          (call_prefix services fuel
            (parse_precedence services fuel)
            (get_rule (literal_type l)).prefix
            can_assign
            (reading compiler (spelled (literal_type l) s) ts chunk))
          compiler
          ts
          (code ++ byte_of (constant_code l) ∷ [])
          constants
  unfolding get_rule call_prefix literal
  literal-Leads literal_false s fuel can_assign ts chunk holding =
      emit_all-Leads (op_false ∷ []) compiler (spelled token_false s) ts chunk holding
  literal-Leads literal_true s fuel can_assign ts chunk holding =
      emit_all-Leads (op_true ∷ []) compiler (spelled token_true s) ts chunk holding
  literal-Leads literal_nil s fuel can_assign ts chunk holding =
      emit_all-Leads (op_nil ∷ []) compiler (spelled token_nil s) ts chunk holding

  pub consume-Leads :
      (type : TokenType) (s : Spelling) (message : String) (last : Token) (ts : List Token)
      (chunk : Chunk) {code constants : List ℕ}
      → Holding chunk code constants
      → readable ts ≡ true
      → Leads
          (consume type message (reading compiler last (spelled type s ∷ ts) chunk))
          compiler
          ts
          code
          constants
  unfolding consume check
  consume-Leads type s message last ts chunk holding h =
      let same : (token_code type == token_code type) ≡ true = ground arith in
      rw same (record {
        last = spelled type s;
        chunk = chunk;
        ran = advance_compiler-reading compiler last (spelled type s) ts chunk h;
        holding = holding;
      })

  -- A tree before the parenthesis that closes it.
  pub enclosed :
      (e : Expr) (fuel : ℕ) (prev : Token) (s : Spelling) (n : Token) (rest : List Token)
      (chunk : Chunk) {code constants bytes after : List ℕ}
      → ReadsPrefix e
      → depth_of e ≤ fuel
      → well_bracketed e ≡ true
      → Holding chunk code constants
      → generate services (names compiler) e constants ≡ some (bytes, after)
      → Leads
          (expression services fuel (parse_precedence services fuel) (
            reading compiler prev
              ((print_expr e ++ spelled token_close_paren s ∷ []) ++ n ∷ rest)
              chunk))
          compiler
          (spelled token_close_paren s ∷ n ∷ rest)
          (code ++ bytes)
          after
  unfolding expression get_rule
  enclosed e fuel prev s n rest chunk {code} {constants} {bytes} {after} reads enough bracketed
        holding h =
      rw (append_assoc (print_expr e) (spelled token_close_paren s ∷ []) (n ∷ rest)) (
        whole e reads prec_assignment fuel prev (spelled token_close_paren s) (n ∷ rest) chunk code
          constants bytes after enough (level-least e) (omega arith) refl (omega arith) bracketed
          holding h)

  pub readable-enclosed :
      (e : Expr) (s : Spelling) (ts : List Token)
      → readable ((print_expr e ++ spelled token_close_paren s ∷ []) ++ ts) ≡ true
  readable-enclosed e s ts =
      rw (append_assoc (print_expr e) (spelled token_close_paren s ∷ []) ts)
        (readable-print_expr e (spelled token_close_paren s ∷ ts))

  pub grouping-Leads :
      (e : Expr) (fuel : ℕ) (prev : Token) (s : Spelling) (n : Token) (rest : List Token)
      (chunk : Chunk) (can_assign : Bool) {code constants bytes after : List ℕ}
      → ReadsPrefix e
      → depth_of e ≤ fuel
      → ends n.type ≡ true
      → well_bracketed e ≡ true
      → Holding chunk code constants
      → generate services (names compiler) e constants ≡ some (bytes, after)
      → Leads
          (grouping services fuel (parse_precedence services fuel) can_assign (
            reading compiler prev
              ((print_expr e ++ spelled token_close_paren s ∷ []) ++ n ∷ rest)
              chunk))
          compiler
          (n ∷ rest)
          (code ++ bytes)
          after
  unfolding grouping
  grouping-Leads e fuel prev s n rest chunk can_assign reads enough closes bracketed holding h =
      Leads-bind {tokens = spelled token_close_paren s ∷ n ∷ rest} _
        (enclosed e fuel prev s n rest chunk reads enough bracketed holding h)
        (λ last₁ chunk₁ h₁.
          consume-Leads token_close_paren s "Expected ')'" last₁ (n ∷ rest) chunk₁ h₁
            (readable-ends n rest closes))

  pub array_length-Leads :
      (e : Expr) (fuel : ℕ) (prev : Token) (s s₁ : Spelling) (n : Token) (rest : List Token)
      (chunk : Chunk) (can_assign : Bool) {code constants bytes after : List ℕ}
      → ReadsPrefix e
      → depth_of e ≤ fuel
      → ends n.type ≡ true
      → well_bracketed e ≡ true
      → Holding chunk code constants
      → generate services (names compiler) e constants ≡ some (bytes, after)
      → Leads
          (array_length services fuel (parse_precedence services fuel) can_assign (
            reading compiler prev
              (spelled token_open_paren s
                ∷ ((print_expr e ++ spelled token_close_paren s₁ ∷ []) ++ n ∷ rest))
              chunk))
          compiler
          (n ∷ rest)
          (code ++ (bytes ++ byte_of op_get_array_length ∷ []))
          after
  unfolding array_length
  array_length-Leads e fuel prev s s₁ n rest chunk can_assign {code} {bytes = bytes} reads enough
        closes bracketed holding h =
      let close = spelled token_close_paren s₁ in
      Leads-code (append_assoc code bytes (byte_of op_get_array_length ∷ [])) (
        Leads-bind {tokens = close ∷ n ∷ rest} _
          (Leads-bind {tokens = close ∷ n ∷ rest} _
            (Leads-bind {tokens = (print_expr e ++ close ∷ []) ++ n ∷ rest} _
              (consume-Leads token_open_paren s "Expect '(' after len" prev
                ((print_expr e ++ close ∷ []) ++ n ∷ rest) chunk holding
                (readable-enclosed e s₁ (n ∷ rest)))
              (λ last₁ chunk₁ h₁.
                enclosed e fuel last₁ s₁ n rest chunk₁ reads enough bracketed h₁ h))
            (λ last₂ chunk₂ h₂.
              emit_bytecode-Leads compiler last₂ (close ∷ n ∷ rest) chunk₂ h₂
                (opcode op_get_array_length)))
          (λ last₃ chunk₃ h₃.
            consume-Leads token_close_paren s₁ "Expect ')' after len" last₃ (n ∷ rest) chunk₃ h₃
              (readable-ends n rest closes)))

  pub unary_code-prefix_code : (o : UnaryOperator) → unary_code (unary_type o) ≡ prefix_code o
  unary_code-prefix_code negation = refl
  unary_code-prefix_code complement = refl

  pub unary-Leads :
      (o : UnaryOperator) (e : Expr) (fuel : ℕ) (s : Spelling) (n : Token) (rest : List Token)
      (chunk : Chunk) (can_assign : Bool) {code constants bytes after : List ℕ}
      → ReadsPrefix e
      → depth_of e ≤ fuel
      → ends n.type ≡ true
      → prec_unary ≤ level e
      → well_bracketed e ≡ true
      → Holding chunk code constants
      → generate services (names compiler) e constants ≡ some (bytes, after)
      → Leads
          (unary services fuel
            (parse_precedence services fuel)
            can_assign
            (reading compiler (spelled (unary_type o) s) (print_expr e ++ n ∷ rest) chunk))
          compiler
          (n ∷ rest)
          (code ++ (bytes ++ bytes_of_all (prefix_code o)))
          after
  unfolding unary
  unary-Leads o e fuel s n rest chunk can_assign {code} {constants} {bytes} {after} reads enough
        closes tight bracketed holding h =
      Leads-code (append_assoc code bytes (bytes_of_all (prefix_code o))) (
        Leads-bind {tokens = n ∷ rest} _
          (whole e reads prec_unary fuel (spelled (unary_type o) s) n rest chunk code constants
            bytes after enough tight (omega arith) closes (ends-loose n.type closes) bracketed
            holding h)
          (λ last₁ chunk₁ h₁.
            rw (unary_code-prefix_code o)
              (emit_all-Leads (prefix_code o) compiler last₁ (n ∷ rest) chunk₁ h₁)))

  pub binary_code-operator_code :
      (o : BinaryOperator) → binary_code (binary_type o) ≡ operator_code o
  binary_code-operator_code equal_to = refl
  binary_code-operator_code not_equal = refl
  binary_code-operator_code less = refl
  binary_code-operator_code less_or_equal = refl
  binary_code-operator_code greater = refl
  binary_code-operator_code greater_or_equal = refl
  binary_code-operator_code plus = refl
  binary_code-operator_code minus = refl
  binary_code-operator_code remainder = refl
  binary_code-operator_code conjunction = refl
  binary_code-operator_code disjunction = refl
  binary_code-operator_code left_shift = refl
  binary_code-operator_code right_shift = refl
  binary_code-operator_code times = refl
  binary_code-operator_code divided_by = refl

  pub binary-Leads :
      (o : BinaryOperator) (e : Expr) (fuel : ℕ) (s : Spelling) (n : Token) (rest : List Token)
      (chunk : Chunk) (can_assign : Bool) {code constants bytes after : List ℕ}
      → ReadsPrefix e
      → depth_of e ≤ fuel
      → ends n.type ≡ true
      → binding o < level e
      → precedence_of n ≤ binding o
      → well_bracketed e ≡ true
      → Holding chunk code constants
      → generate services (names compiler) e constants ≡ some (bytes, after)
      → Leads
          (binary services fuel
            (parse_precedence services fuel)
            can_assign
            (reading compiler (spelled (binary_type o) s) (print_expr e ++ n ∷ rest) chunk))
          compiler
          (n ∷ rest)
          (code ++ (bytes ++ bytes_of_all (operator_code o)))
          after
  unfolding binary
  binary-Leads o e fuel s n rest chunk can_assign {code} {constants} {bytes} {after} reads enough
        closes tight below bracketed holding h =
      let sign = spelled (binary_type o) s in
      let operand : Leads
          (parse_precedence services fuel ((get_rule (binary_type o)).precedence + 1)
            (reading compiler sign (print_expr e ++ n ∷ rest) chunk))
          compiler (n ∷ rest) (code ++ bytes) after =
        rw (precedence_of_operator o) (
          whole e reads (binding o + 1) fuel sign n rest chunk code constants bytes after enough
            (omega (arith, tight)) (omega arith) closes (omega (arith, below)) bracketed holding
            h) in
      Leads-code (append_assoc code bytes (bytes_of_all (operator_code o))) (
        Leads-bind (emit_all (binary_code (binary_type o))) operand (λ last₁ chunk₁ h₁.
          rw (binary_code-operator_code o)
            (emit_all-Leads (operator_code o) compiler last₁ (n ∷ rest) chunk₁ h₁)))

  -- A round of the loop, at an operator that binds tightly enough.
  pub loop_step :
      (o : BinaryOperator) (s : Spelling) (precedence fuel rounds : ℕ) (last : Token)
      (ts : List Token) (chunk : Chunk)
      → precedence ≤ binding o
      → readable ts ≡ true
      → suffix_loop fuel
          (suc rounds)
          precedence
          (reading compiler last (spelled (binary_type o) s ∷ ts) chunk)
        ≡ (binary services fuel
              (parse_precedence services fuel)
              (leb precedence prec_assignment)
              (reading compiler (spelled (binary_type o) s) ts chunk)
            >>= suffix_loop fuel rounds precedence)
  unfolding parse_suffixes call_suffix
  loop_step o s precedence fuel rounds last ts chunk fits h =
      let goes_on : leb precedence (get_rule (binary_type o)).precedence ≡ true =
        ground (arith, fits, precedence_of_operator o) in
      let moved = advance_compiler-reading compiler last (spelled (binary_type o) s) ts chunk h in
      rw (parse_suffixes, goes_on, moved, suffix_of o) refl

  -- A tree whose first token reads all of it.
  pub by_token :
      (precedence fuel rounds : ℕ) (prev t : Token) (tokens ts : List Token) (chunk : Chunk)
      {code constants : List ℕ}
      → fuel ≡ rounds + 0
      → readable tokens ≡ true
      → Leads
          (call_prefix services fuel
            (parse_precedence services fuel)
            (get_rule t.type).prefix
            (leb precedence prec_assignment)
            (reading compiler t tokens chunk))
          compiler
          ts
          code
          constants
      → Continues
          (start services fuel precedence (reading compiler prev (t ∷ tokens) chunk)
            >>= suffix_loop fuel fuel precedence)
          (suffix_loop fuel rounds precedence)
          ts
          code
          constants
  by_token precedence fuel rounds prev t tokens ts chunk all h l =
      at_once (reading compiler prev (t ∷ tokens) chunk) ts precedence fuel rounds all (
        advance_then prev t tokens
          (λ c.
            call_prefix services fuel (parse_precedence services fuel)
              (get_rule c.previous.type).prefix (leb precedence prec_assignment) c)
          h l)
