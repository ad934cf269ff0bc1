-- ===== src/Examples/Scanning.antt =====
-- The scanner of src/compiler/bytecode/scanner.c on small texts.
use lox_vm.Prelude.{ℕ, List, ◌≡◌, refl, some, codes}
use lox_vm.Compiler.Scanner.{init_scanner, identifier_type, next_token_scanner}
use lox_vm.Compiler.Scanner.Tokens.{Token, Scanner}
use lox_vm.Compiler.Scanner.Progress.{Scanned, next_token_scanner-total}
use lox_vm.Compiler.Scanner.Keywords.{keyword, identifier_type-keyword}

abbrev source : List ℕ
source = codes " // note\nvar x = 1;"

-- A line comment stands before the first token.
next_token_scanner-total_example :
    (token : Token) × (s' : Scanner) × (next_token_scanner (init_scanner source) ≡ some (token, s'))
    × Scanned (init_scanner source) token s'
next_token_scanner-total_example = next_token_scanner-total (init_scanner source)

-- The scanner behind the word of "iffy;".
abbrev at_iffy : Scanner
at_iffy = record {
  base_source_code = codes "iffy;";
  start = codes "iffy;";
  current = codes ";";
  line = 0;
}

identifier_type-keyword_example : identifier_type at_iffy ≡ keyword (codes "iffy")
identifier_type-keyword_example = identifier_type-keyword at_iffy b'i' (codes "ffy") refl
