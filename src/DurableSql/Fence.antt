-- ===== src/DurableSql/Fence.antt =====
-- The fence of triggers that stops SQL writes (saas/src/durable-sql/fence.ts). `hash` stands for
-- `snapshotHash`, the SHA-256 of the canonical JSON text. Two values have the same canonical text
-- exactly if they are the same.
pub mod Triggers
pub mod Stops
pub mod Sorting
pub mod Fresh
pub mod Verdicts
use memory_server_worker.Prelude.{
  ℕ, zero, suc, ◌+◌, ◌*◌, ◌/◌, ◌%◌, Bool, true, false, ◌&&◌, ◌||◌, not, Option, none, some, List,
  [], ◌∷◌, ◌++◌, map, ltb, leb, ◌==◌, ◌!=◌, nat_eq, Eq, enum_eq, length, select_rows, find_row,
  any_row, all_rows, contains, if◌then◌else◌, Result, ok, err, reject_if, ◌>>=◌, ◌>>◌, ◌≡◌, ◌↔◌,
  refl, arith,
}
use memory_server_worker.Routing.Schema.{codes}
use memory_server_worker.Texts.{Text, text_eq, is_space}

pub data Kind : Type 0 where
  table index view trigger : Kind

pub data Code : Type 0 where
  fence_input fence_definition_mismatch fence_source_changed : Code

abbrev pub kind_rank : Kind → ℕ
kind_rank table = 0
kind_rank index = 1
kind_rank view = 2
kind_rank trigger = 3

pub kind_rank_iff : (a b : Kind) → ((kind_rank a == kind_rank b) ≡ true) ↔ (a ≡ b)
kind_rank_iff a b = ground arith

instance abbrev pub kind_eq : Eq Kind
kind_eq = enum_eq kind_rank kind_rank_iff

pub record Schema : Type 0 where
  pub kind : Kind
  pub name : Text
  pub table_name : Text
  pub sql : Text

abbrev pub schema_beq : Schema → Schema → Bool
schema_beq a b =
    a.kind == b.kind && a.name == b.name && a.table_name == b.table_name && a.sql == b.sql

pub schema_beq_iff : (a b : Schema) → (schema_beq a b ≡ true) ↔ (a ≡ b)
schema_beq_iff a b = ground (
  arith,
  kind_eq.beq_iff a.kind b.kind,
  text_eq.beq_iff a.name b.name,
  text_eq.beq_iff a.table_name b.table_name,
  text_eq.beq_iff a.sql b.sql,
)

instance abbrev pub schema_eq : Eq Schema
schema_eq = record { beq = schema_beq; beq_iff = schema_beq_iff }

abbrev pub schemas_beq : List Schema → List Schema → Bool
schemas_beq [] [] = true
schemas_beq [] (b ∷ bs) = false
schemas_beq (a ∷ rest) [] = false
schemas_beq (a ∷ rest) (b ∷ bs) = schema_beq a b && schemas_beq rest bs

pub record FencePlan : Type 0 where
  pub run_id : Text
  pub source_schema_hash : Text
  pub source : List Schema
  pub triggers : List Schema

pub record Verdict : Type 0 where
  pub complete : Bool
  pub installed : List Text
  pub missing : List Text

abbrev pub lower_code : ℕ → ℕ
lower_code c = if leb b'A' c && leb c b'Z' then c + 32 else c

abbrev pub is_word_code : ℕ → Bool
is_word_code c =
    leb b'A' c && leb c b'Z'
    || (leb b'a' c && leb c b'z' || (leb b'0' c && leb c b'9' || c == b'_'))

-- /^[A-Za-z_][A-Za-z0-9_]{0,63}$/
unfoldable pub is_name : Text → Bool
is_name [] = false
is_name (c ∷ s) =
    is_word_code c && not (leb b'0' c && leb c b'9') && leb (length s) 63 && all_rows is_word_code s

-- What is left of the text after the prefix, which is in lower case, whatever the case of the text.
abbrev pub after_prefix : Text → Text → Option Text
after_prefix [] s = some s
after_prefix (c ∷ p) [] = none
after_prefix (c ∷ p) (d ∷ s) = if c == lower_code d then after_prefix p s else none

abbrev pub has_prefix : Text → Text → Bool
has_prefix p s = elim (after_prefix p s) [ none ↦ false | some rest ↦ true ]

abbrev pub skip_spaces : Text → Text
skip_spaces [] = []
skip_spaces (c ∷ s) = if is_space c then skip_spaces s else c ∷ s

-- \s+
abbrev pub after_spaces : Text → Option Text
after_spaces [] = none
after_spaces (c ∷ s) = if is_space c then some (skip_spaces s) else none

abbrev pub then_after : Option Text → (Text → Option Text) → Option Text
then_after none rest = none
then_after (some s) rest = rest s

-- \b, after a letter
abbrev pub ends_word : Text → Bool
ends_word [] = true
ends_word (c ∷ s) = not (is_word_code c)

-- /^CREATE\s+VIRTUAL\s+TABLE\b/i
unfoldable pub is_virtual_sql : Text → Bool
is_virtual_sql sql =
    elim (then_after
      (then_after
        (then_after (then_after (after_prefix (codes "create") sql) after_spaces)
          (after_prefix (codes "virtual")))
        after_spaces)
      (after_prefix (codes "table"))) [ none ↦ false | some rest ↦ ends_word rest ]

-- a.name < b.name
abbrev pub text_ltb : Text → Text → Bool
text_ltb [] [] = false
text_ltb [] (d ∷ t) = true
text_ltb (c ∷ s) [] = false
text_ltb (c ∷ s) (d ∷ t) = ltb c d || (c == d && text_ltb s t)

abbrev pub insert_named : Schema → List Schema → List Schema
insert_named x [] = x ∷ []
insert_named x (y ∷ ys) = if text_ltb y.name x.name then y ∷ insert_named x ys else x ∷ y ∷ ys

abbrev pub sort_named : List Schema → List Schema
sort_named [] = []
sort_named (x ∷ xs) = insert_named x (sort_named xs)

-- The items are valid, and no two names are the same but for their case.
abbrev pub are_valid : (seen : List Text) → List Schema → Bool
are_valid seen [] = true
are_valid seen (x ∷ xs) =
    is_name x.name
    && is_name x.table_name
    && not (contains (map lower_code x.name) seen)
    && leb (length x.sql) 100_000
    && are_valid (map lower_code x.name ∷ seen) xs

unfoldable pub catalog : List Schema → (maximum : ℕ) → Result Code (List Schema)
catalog schema maximum = do
  reject_if (length schema == 0 || ltb maximum (length schema)) fence_input
  reject_if (not (are_valid [] schema)) fence_input
  ok (sort_named schema)

-- /^[a-f0-9]{24}$/
abbrev pub is_run_id : Text → Bool
is_run_id s =
    length s == 24 && all_rows (λ c. leb b'0' c && leb c b'9' || leb b'a' c && leb c b'f') s

-- /^(memory_sql_fence_|durable_sql_|sqlite_|__cf_|_cf_)/i
abbrev pub is_reserved : Text → Bool
is_reserved name =
    any_row (λ p. has_prefix p name)
      (codes "memory_sql_fence_"
        ∷ codes "durable_sql_"
        ∷ codes "sqlite_"
        ∷ codes "__cf_"
        ∷ codes "_cf_"
        ∷ [])

abbrev pub is_virtual : Schema → Bool
is_virtual item = item.kind == table && is_virtual_sql item.sql

abbrev pub shadow_suffixes : List Text
shadow_suffixes =
    codes "data" ∷ codes "idx" ∷ codes "content" ∷ codes "docsize" ∷ codes "config" ∷ []

abbrev pub is_shadow : (virtual : List Text) → Schema → Bool
is_shadow virtual item =
    any_row
      (λ prefix. any_row (λ suffix. item.name == prefix ++ (codes "_" ++ suffix)) shadow_suffixes)
      virtual

-- The decimal digits of a number below 1000, String(index).padStart(3, '0').
abbrev pub three_digits : ℕ → Text
three_digits n = (b'0' + n / 100) ∷ (b'0' + n / 10 % 10) ∷ (b'0' + n % 10) ∷ []

-- '"' + value.replaceAll('"', '""') + '"'
abbrev pub doubled : Text → Text
doubled [] = []
doubled (c ∷ s) = if c == b'"' then c ∷ c ∷ doubled s else c ∷ doubled s

abbrev pub quoted : Text → Text
quoted s = b'"' ∷ (doubled s ++ (b'"' ∷ []))

pub data Operation : Type 0 where
  inserts updates deletes : Operation

abbrev pub word_of : Operation → Text
word_of inserts = codes "INSERT"
word_of updates = codes "UPDATE"
word_of deletes = codes "DELETE"

abbrev pub letter_of : Operation → Text
letter_of inserts = codes "i"
letter_of updates = codes "u"
letter_of deletes = codes "d"

abbrev pub trigger_name : (run_id : Text) (at : ℕ) → Operation → Text
trigger_name run_id at operation =
    codes "memory_sql_fence_"
    ++ (run_id ++ (codes "_" ++ (three_digits at ++ (codes "_" ++ letter_of operation))))

abbrev pub trigger_sql : (run_id name table_name : Text) → Operation → Text
trigger_sql run_id name table_name operation =
    codes "CREATE TRIGGER "
    ++ (quoted name
        ++ (codes " BEFORE "
            ++ (word_of operation
                ++ (codes " ON "
                    ++ (quoted table_name
                        ++ (codes " BEGIN SELECT RAISE(ABORT,'memory_sql_cutover_frozen:"
                            ++ (run_id ++ codes "'); END")))))))

abbrev pub fence_trigger : (run_id : Text) (at : ℕ) → Schema → Operation → Schema
fence_trigger run_id at item operation = record {
  kind = trigger;
  name = trigger_name run_id at operation;
  table_name = item.name;
  sql = trigger_sql run_id (trigger_name run_id at operation) item.name operation;
}

abbrev pub fence_triggers : (run_id : Text) (at : ℕ) → List Schema → List Schema
fence_triggers run_id at [] = []
fence_triggers run_id at (item ∷ items) =
    fence_trigger run_id at item inserts
    ∷ fence_trigger run_id at item updates
    ∷ fence_trigger run_id at item deletes
    ∷ fence_triggers run_id (at + 1) items

abbrev pub names_of : List Schema → List Text
names_of items = map (λ x. x.name) items

abbrev pub virtual_names : List Schema → List Text
virtual_names source = names_of (select_rows is_virtual source)

-- The tables that are not virtual.
abbrev pub fenced_tables : List Schema → List Schema
fenced_tables source =
    select_rows (λ x. x.kind == table && not (contains x.name (virtual_names source))) source

module _ (hash : List Schema → Text) where
  unfoldable pub build_write_fence : (run_id : Text) → List Schema → Result Code FencePlan
  build_write_fence run_id schema = do
    reject_if (not (is_run_id run_id)) fence_input
    source ← catalog schema 600
    reject_if (any_row (λ x. is_reserved x.name) source) fence_input
    reject_if (any_row (is_shadow (virtual_names source)) source) fence_input
    reject_if (length (fenced_tables source) == 0 || ltb 128 (length (fenced_tables source)))
        fence_input
    ok (record {
      run_id = run_id;
      source_schema_hash = hash source;
      source = source;
      triggers = fence_triggers run_id 0 (fenced_tables source);
    })

-- The last trigger of this name, as a `Map` of the triggers by name has it.
abbrev pub owned : Text → List Schema → Option Schema
owned name [] = none
owned name (t ∷ ts) = elim (owned name ts) [
  | some later ↦ some later
  | none ↦ if t.name == name then some t else none
]

-- The items of a catalog: the names of those that are the fence's, and the others.
abbrev pub parted : (triggers : List Schema) → List Schema → Result Code (List Text × List Schema)
parted triggers [] = ok ([], [])
parted triggers (x ∷ xs) = elim (owned x.name triggers) [
  | none ↦ parted triggers xs >>= λ rest. ok (rest.0, x ∷ rest.1)
  | some t ↦
      reject_if (not (schema_beq x t)) fence_definition_mismatch
      >> (parted triggers xs >>= λ rest. ok (x.name ∷ rest.0, rest.1))
]

abbrev pub same_plan : FencePlan → FencePlan → Bool
same_plan a b =
    a.run_id == b.run_id
    && a.source_schema_hash == b.source_schema_hash
    && schemas_beq a.source b.source
    && schemas_beq a.triggers b.triggers

module _ (hash : List Schema → Text) where
  unfoldable pub verify_write_fence : FencePlan → (current : List Schema) → Result Code Verdict
  verify_write_fence plan current = do
    observed ← catalog current 984
    expected ← build_write_fence hash plan.run_id plan.source
    reject_if (not (same_plan expected plan)) fence_input
    parts ← parted plan.triggers observed
    reject_if (not (schemas_beq parts.1 plan.source)) fence_source_changed
    let missing = names_of (select_rows (λ t. not (contains t.name parts.0)) plan.triggers)
    ok (record { complete = length missing == 0; installed = parts.0; missing = missing })

  abbrev pub drop_statements : Result Code Verdict → Result Code (List Text)
  drop_statements (err e) = err e
  drop_statements (ok r) = ok (map (λ name. codes "DROP TRIGGER " ++ quoted name) r.installed)

  unfoldable pub fence_removal_statements :
      FencePlan → (current : List Schema) → Result Code (List Text)
  fence_removal_statements plan current = drop_statements (verify_write_fence plan current)
