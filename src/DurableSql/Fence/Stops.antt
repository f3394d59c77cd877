-- ===== src/DurableSql/Fence/Stops.antt =====
-- The plan of a fence has a trigger for each write to a table that is not virtual.
use mathlib.Core.List.{Memᴰ}
use memory_server_worker.Prelude.{
  ℕ, ◌+◌, Bool, true, false, List, [], ◌∷◌, ◌++◌, ◌==◌, select_rows, contains, All, ◌≡◌, ◌≢◌, refl,
  sym, arith, Bool-cases, inl, inr,
}
use memory_server_worker.Routing.Schema.{codes}
use memory_server_worker.Texts.{Text, text_eq}
use memory_server_worker.DurableSql.Fence.{
  Schema, table, trigger, is_virtual, is_virtual_sql, quoted, virtual_names, fenced_tables,
  fence_triggers,
}

-- The trigger aborts this write to the table.
pub record IsStop (run_id : Text) (x : Schema) (word : Text) (t : Schema) : Type 0 where
  pub is_trigger : t.kind ≡ trigger
  pub on_table : t.table_name ≡ x.name
  pub aborts :
      t.sql
      ≡ codes "CREATE TRIGGER "
        ++ (quoted t.name
            ++ (codes " BEFORE "
                ++ (word
                    ++ (codes " ON "
                        ++ (quoted x.name
                            ++ (codes " BEGIN SELECT RAISE(ABORT,'memory_sql_cutover_frozen:"
                                ++ (run_id ++ codes "'); END")))))))

abbrev pub writes : List Text
writes = codes "INSERT" ∷ codes "UPDATE" ∷ codes "DELETE" ∷ []

here-IsStop :
    (run_id : Text) (at : ℕ) (x : Schema) (items : List Schema) (word : Text)
    → Memᴰ word writes
    → (t : Schema) × Memᴰ t (fence_triggers run_id at (x ∷ items)) × IsStop run_id x word t
here-IsStop run_id at x items word (Memᴰ.head e) =
    (_, Memᴰ.head refl, record { is_trigger = refl; on_table = refl; aborts = rw e refl })
here-IsStop run_id at x items word (Memᴰ.tail (Memᴰ.head e)) = (
  _,
  Memᴰ.tail (Memᴰ.head refl),
  record { is_trigger = refl; on_table = refl; aborts = rw e refl },
)
here-IsStop run_id at x items word (Memᴰ.tail (Memᴰ.tail (Memᴰ.head e))) = (
  _,
  Memᴰ.tail (Memᴰ.tail (Memᴰ.head refl)),
  record { is_trigger = refl; on_table = refl; aborts = rw e refl },
)
here-IsStop run_id at x items word (Memᴰ.tail (Memᴰ.tail (Memᴰ.tail m))) = elim m [ ]

pub fence_triggers-IsStop :
    (run_id : Text) (at : ℕ) (items : List Schema) (x : Schema) (word : Text)
    → Memᴰ x items
    → Memᴰ word writes
    → (t : Schema) × Memᴰ t (fence_triggers run_id at items) × IsStop run_id x word t
fence_triggers-IsStop run_id at [] x word m w = elim m [ ]
fence_triggers-IsStop run_id at (y ∷ items) x word (Memᴰ.head e) w =
    rw e (here-IsStop run_id at y items word w)
fence_triggers-IsStop run_id at (y ∷ items) x word (Memᴰ.tail m) w =
    let (t, later, stops) = fence_triggers-IsStop run_id (at + 1) items x word m w in
    (t, Memᴰ.tail (Memᴰ.tail (Memᴰ.tail later)), stops)

-- A table of the source, whose name no virtual table of it has.
pub record IsOrdinary (source : List Schema) (x : Schema) : Type 0 where
  pub listed : Memᴰ x source
  pub is_table : x.kind ≡ table
  pub not_virtual :
      (v : Schema) → Memᴰ v source → v.kind ≡ table → is_virtual_sql v.sql ≡ true → v.name ≢ x.name

not-virtual_names :
    (name : Text) (xs : List Schema)
    → ((v : Schema) → Memᴰ v xs → v.kind ≡ table → is_virtual_sql v.sql ≡ true → v.name ≢ name)
    → contains name (virtual_names xs) ≡ false
not-virtual_names name [] h = refl
not-virtual_names name (v ∷ xs) h =
    let rest = not-virtual_names name xs (λ w m. h w (Memᴰ.tail m)) in
    elim (Bool-cases (is_virtual v)) [
      | inr other ↦ rw other rest
      | inl virtual ↦ elim (Bool-cases (name == v.name)) [
        | inr apart ↦ rw (virtual, apart) rest
        | inl same ↦ absurd (
            h v (Memᴰ.head refl) (ground arith) (ground arith)
              (sym ((text_eq.beq_iff name v.name).0 same)))
      ]
    ]

module _ {ℓ} {A : Type ℓ} where
  Mem-select_rows :
      (p : A → Bool) (xs : List A) (x : A) → Memᴰ x xs → p x ≡ true → Memᴰ x (select_rows p xs)
  Mem-select_rows p [] x m h = m
  Mem-select_rows p (y ∷ xs) x (Memᴰ.head e) h = rw (rw e at h) (Memᴰ.head e)
  Mem-select_rows p (y ∷ xs) x (Memᴰ.tail m) h = elim (Bool-cases (p y)) [
    | inl kept ↦ rw kept (Memᴰ.tail (Mem-select_rows p xs x m h))
    | inr left ↦ rw left (Mem-select_rows p xs x m h)
  ]

pub fenced_tables-IsOrdinary :
    (source : List Schema) (x : Schema) → IsOrdinary source x → Memᴰ x (fenced_tables source)
fenced_tables-IsOrdinary source x h =
    Mem-select_rows _ source x h.listed
      (ground (arith, h.is_table, not-virtual_names x.name source h.not_virtual))

pub All-Mem : {A : Type 0} (p : A → Type 0) (xs : List A) (x : A) → All p xs → Memᴰ x xs → p x
All-Mem p [] x h m = elim m [ ]
All-Mem p (y ∷ xs) x h (Memᴰ.head e) = rw e h.0
All-Mem p (y ∷ xs) x h (Memᴰ.tail m) = All-Mem p xs x h.1 m
