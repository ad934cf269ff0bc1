-- ===== src/Compiler/Parser/Grammar/Atoms.antt =====
-- The expressions of a single token: literals, numbers, texts and names.
use lox_vm.Prelude.{
  ℕ, ◌-◌, ◌/◌, ◌%◌, ◌^◌, ◌≡◌, refl, ap, inl, inr, Bool, true, false, ◌&&◌, ◌||◌, not, none, some,
  List, [], ◌∷◌, ◌++◌, append_assoc, arith, leb, if◌then◌else◌, Bool-cases, Option-cases, length,
  take, drop,
}
use lox_vm.Shared.Bytecode.{
  op_constant, op_get_global, op_get_local, op_fast_const_8, op_fast_const_16, op_const_1,
  op_const_2, opcode,
}
use lox_vm.Compiler.Scanner.Tokens.{Token, TokenType, token_identifier, token_number}
use lox_vm.Compiler.Chunk.{Chunk}
use lox_vm.Compiler.Parser.State.{ok, ◌>>=◌, Compiler, Services, Step, ◌then◌}
use lox_vm.Compiler.Parser.Tokens.{advance_compiler, check, match_token}
use lox_vm.Compiler.Parser.Emit.{
  emit_bytecode, emit_bytecodes, emit_u16, add_constant, add_string_constant, emit_constant,
}
use lox_vm.Compiler.Parser.Scopes.{resolve_local_variable, resolve_in}
use lox_vm.Compiler.Parser.Rules.{prec_assignment, get_rule}
use lox_vm.Compiler.Parser.Variables.{
  is_const_variable, own_identifier, variable_identifier, check_set, named_variable,
  is_being_defined,
}
use lox_vm.Compiler.Parser.Expressions.{
  string_contains, number_expression, string_expression, read_access, variable, call_prefix,
  parse_precedence,
}
use lox_vm.Compiler.Parser.Grammar.{
  Spelling, spelled, Generated, byte_of, with_constant, numeral_code, name_code, names,
}
use lox_vm.Compiler.Parser.Grammar.Reading.{
  reading, readable, advance_compiler-reading, Holding, Leads, Leads-bind, Leads-path, Leads-code,
}
use lox_vm.Compiler.Parser.Grammar.Writing.{
  Leads-some, emit_bytecode-Leads, emit_u16-Leads, emit_bytecodes-Leads, with_constant-Leads,
  add_constant-reading, emit_place-Leads, Leads-ok, one_more, Leads-some,
}
use lox_vm.Compiler.Parser.Grammar.Followers.{Stops}

-- The first two steps of parse_precedence.
abbrev pub start : Services → ℕ → ℕ → Step
start services fuel precedence compiler = advance_compiler compiler >>= λ c.
    call_prefix services fuel (parse_precedence services fuel) (get_rule c.previous.type).prefix
      (leb precedence prec_assignment) c

pub advance_then :
    {compiler : Compiler} (last t : Token) (tokens : List Token) {ts : List Token} {chunk : Chunk}
    {code constants : List ℕ} (f : Step)
    → readable tokens ≡ true
    → Leads (f (reading compiler t tokens chunk)) compiler ts code constants
    → Leads
        (advance_compiler (reading compiler last (t ∷ tokens) chunk) >>= f)
        compiler
        ts
        code
        constants
advance_then {compiler} last t tokens {chunk = chunk} f h l =
    Leads-path (ap (λ r. r >>= f) (advance_compiler-reading compiler last t tokens chunk h)) l

module _ (services : Services) (compiler : Compiler) (s : Spelling) (ts : List Token)
    (chunk : Chunk) (code constants : List ℕ) (holding : Holding chunk code constants) where
  -- The choice of number_expression, for the outcomes of its tests.
  chosen :
      (decimal small middle one two : Bool) (value : ℕ) (bytes after : List ℕ)
      → (if decimal || not small && not middle
          then with_constant op_constant value constants
          else if one
          then some (byte_of op_const_1 ∷ [], constants)
          else if two
          then some (byte_of op_const_2 ∷ [], constants)
          else if small
          then some (byte_of op_fast_const_8 ∷ services.double_to_int value % 256 ∷ [], constants)
          else some (
            byte_of op_fast_const_16
                ∷ services.double_to_int value % 256
                ∷ services.double_to_int value / 2 ^ 8 % 256
                ∷ [],
            constants,
          ))
        ≡ some (bytes, after)
      → Leads
          ((λ (c : Compiler).
              if decimal || (not small && not (not small && middle))
              then emit_constant value c
              else if not decimal && one
              then emit_bytecode (opcode op_const_1) c
              else if not decimal && two
              then emit_bytecode (opcode op_const_2) c
              else if not decimal && small
              then emit_bytecodes (opcode op_fast_const_8) (services.double_to_int value) c
              else if not decimal && (not small && middle)
              then (emit_bytecode (opcode op_fast_const_16)
                    then emit_u16 (services.double_to_int value))
                  c
              else ok c)
            (reading compiler (spelled token_number s) ts chunk))
          compiler
          ts
          (code ++ bytes)
          after
  unfolding emit_constant
  chosen true small middle one two value bytes after h =
      with_constant-Leads op_constant value compiler (spelled token_number s) ts chunk bytes after
        holding h
  chosen false false false one two value bytes after h =
      with_constant-Leads op_constant value compiler (spelled token_number s) ts chunk bytes after
        holding h
  chosen false true middle true two value bytes after h =
      Leads-some code h
        (emit_bytecode-Leads compiler (spelled token_number s) ts chunk holding (opcode op_const_1))
  chosen false false true true two value bytes after h =
      Leads-some code h
        (emit_bytecode-Leads compiler (spelled token_number s) ts chunk holding (opcode op_const_1))
  chosen false true middle false true value bytes after h =
      Leads-some code h
        (emit_bytecode-Leads compiler (spelled token_number s) ts chunk holding (opcode op_const_2))
  chosen false false true false true value bytes after h =
      Leads-some code h
        (emit_bytecode-Leads compiler (spelled token_number s) ts chunk holding (opcode op_const_2))
  chosen false true middle false false value bytes after h = Leads-some code h (
      emit_bytecodes-Leads compiler (spelled token_number s) ts chunk holding
        (opcode op_fast_const_8) (services.double_to_int value))
  chosen false false true false false value bytes after h =
      let number = services.double_to_int value in
      Leads-some code h (
        Leads-code
          (append_assoc code (byte_of op_fast_const_16 ∷ [])
            (number % 256 ∷ number / 2 ^ 8 % 256 ∷ []))
          (Leads-bind _
            (emit_bytecode-Leads compiler (spelled token_number s) ts chunk holding
              (opcode op_fast_const_16))
            (λ last₁ chunk₁ h₁. emit_u16-Leads compiler last₁ ts chunk₁ h₁ number)))

  pub number_expression-Leads :
      (can_assign : Bool) (bytes after : List ℕ)
      → numeral_code services s constants ≡ some (bytes, after)
      → Leads
          (number_expression services can_assign
            (reading compiler (spelled token_number s) ts chunk))
          compiler
          ts
          (code ++ bytes)
          after
  unfolding number_expression numeral_code
  number_expression-Leads can_assign bytes after h =
      let value = services.strtod s.start in
      chosen (string_contains (take s.length s.start) b'.') (services.double_at_most value 127)
        (services.double_at_most value 32767) (services.double_equals value 1)
        (services.double_equals value 2) value bytes after h

  pub string_expression-Leads :
      (type : TokenType) (can_assign : Bool) (bytes after : List ℕ)
      → with_constant op_constant
          (services.string_value (take (s.length - 2) (drop 1 s.start)))
          constants
        ≡ some (bytes, after)
      → Leads
          (string_expression services can_assign (reading compiler (spelled type s) ts chunk))
          compiler
          ts
          (code ++ bytes)
          after
  unfolding string_expression emit_constant
  string_expression-Leads type can_assign bytes after h =
      with_constant-Leads op_constant _ compiler (spelled type s) ts chunk bytes after holding h

module _ (services : Services) (rounds : ℕ) (parse : ℕ → Step) (compiler : Compiler) (s : Spelling)
    (n : Token) (rest : List Token) (chunk : Chunk) (stops : Stops n.type) where
  abbrev at_name : Compiler
  at_name = reading compiler (spelled token_identifier s) (n ∷ rest) chunk

  -- No handler but that of plain names is called.
  variable-name :
      (can_assign : Bool)
      → variable services rounds parse can_assign at_name ≡ (
          named_variable services rounds parse
            (spelled token_identifier s)
            can_assign
            none
            false
            at_name
          >>= ok)
  unfolding variable read_access check
  variable-name can_assign =
      rw (read_access, stops.no_package, stops.no_index, stops.no_call, stops.no_struct) refl

  module _ {code constants : List ℕ} (bytes after : List ℕ)
      (holding : Holding chunk code constants) where
    abbrev value : ℕ
    value = services.string_value (take s.length s.start)

    added :
        with_constant op_get_global value constants ≡ some (bytes, after)
        → add_constant value at_name
          ≡ ok (
            length chunk.constants,
            reading compiler (spelled token_identifier s) (n ∷ rest) (one_more chunk value),
          )
    added =
        add_constant-reading op_get_global value compiler (spelled token_identifier s) (n ∷ rest)
          chunk bytes after holding

    loads :
        with_constant op_get_global value constants ≡ some (bytes, after)
        → Leads
            (emit_bytecodes
                (opcode op_get_global)
                (length chunk.constants)
                (reading compiler (spelled token_identifier s) (n ∷ rest) (one_more chunk value))
              >>= ok)
            compiler
            (n ∷ rest)
            (code ++ bytes)
            after
    loads h = Leads-ok (
        emit_place-Leads op_get_global value compiler (spelled token_identifier s) (n ∷ rest) chunk
          bytes after holding h)

    -- A name of no local variable is a constant, by which the global variable is loaded.
    named_variable-global :
        (can_assign : Bool)
        → resolve_in compiler.locals (spelled token_identifier s) ≡ none
        → with_constant op_get_global value constants ≡ some (bytes, after)
        → Leads
            (named_variable services rounds parse
              (spelled token_identifier s)
              can_assign
              none
              false
              at_name)
            compiler
            (n ∷ rest)
            (code ++ bytes)
            after
    unfolding named_variable resolve_local_variable is_const_variable own_identifier
        add_string_constant check_set variable_identifier match_token check
    named_variable-global true p h =
        rw
          (
            named_variable,
            p,
            match_token,
            stops.no_assignment,
            p,
            own_identifier,
            add_string_constant,
            added h,
          )
          (loads h)
    named_variable-global false p h =
        rw (named_variable, p, p, own_identifier, add_string_constant, added h) (loads h)

    local_load :
        (number : ℕ)
        → Leads
            (emit_bytecodes (opcode op_get_local) number at_name)
            compiler
            (n ∷ rest)
            (code ++ byte_of op_get_local ∷ number % 256 ∷ [])
            constants
    local_load number =
        emit_bytecodes-Leads compiler (spelled token_identifier s) (n ∷ rest) chunk holding
          (opcode op_get_local) number

    no_code : ¬ (◌≡◌ {A = Generated} none (some (bytes, after)))
    no_code p = absurd (ground arith)

    -- A local variable is loaded by its number, unless its own value is being compiled.
    named_variable-local :
        (can_assign : Bool) (number : ℕ)
        → resolve_in compiler.locals (spelled token_identifier s) ≡ some number
        → is_being_defined (some number) compiler.compiling_new_local_set_body ≡ false
        → Leads
            (named_variable services rounds parse
              (spelled token_identifier s)
              can_assign
              none
              false
              at_name)
            compiler
            (n ∷ rest)
            (code ++ byte_of op_get_local ∷ number % 256 ∷ [])
            constants
    unfolding named_variable resolve_local_variable is_const_variable own_identifier check_set
        variable_identifier match_token check
    named_variable-local true number p h =
        rw (named_variable, p, h, match_token, stops.no_assignment, p)
          (Leads-ok (local_load number))
    named_variable-local false number p h =
        rw (named_variable, p, h, p) (Leads-ok (local_load number))

    -- A name that is not assigned to is loaded.
    pub variable-Leads :
        (can_assign : Bool)
        → name_code services (names compiler) (spelled token_identifier s) constants
          ≡ some (bytes, after)
        → Leads
            (variable services rounds parse can_assign at_name)
            compiler
            (n ∷ rest)
            (code ++ bytes)
            after
    unfolding name_code
    variable-Leads can_assign h = Leads-path (variable-name can_assign) (
        Leads-ok (elim (Option-cases (resolve_in compiler.locals (spelled token_identifier s))) [
          | inl p ↦ named_variable-global can_assign p (rw (name_code, p) at h)
          | inr (number, p) ↦
              elim (Bool-cases
                (is_being_defined (some number) compiler.compiling_new_local_set_body)) [
                  | inl d ↦ absurd (no_code (rw (name_code, p, d) at h))
                  | inr d ↦
                      Leads-some code (rw (name_code, p, d) at h)
                        (named_variable-local can_assign number p d)
                ]
        ]))
