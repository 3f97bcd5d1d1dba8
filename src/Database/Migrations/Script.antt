-- ===== src/Database/Migrations/Script.antt =====
-- What a script of statements leaves behind, and what it does when it runs again.
use asb_cloud_api.Base.{
  ◌≡◌, refl, String, Bool, true, false, ◌&&◌, Option, none, some, List, [], ◌∷◌, ◌++◌, ◌==◌,
  contains, arith, string_eq, if◌then◌else◌,
}
use asb_cloud_api.Base.Dict.{lookup, has_key, lookup-insert}
use asb_cloud_api.Http.{ok, bind_parts}
use asb_cloud_api.Database.Migrations.{
  Column, Statement, create_table, create_index, add_column, Catalog, has_column, apply, run_script,
  column_made,
}

module _ (accepts : String → Bool) where
  abbrev column_there : Column → Option (List Column) → Bool
  column_there new none = false
  column_there new (some columns) = has_column new.name columns

  -- The table, the index or the column of a statement is there.
  abbrev pub holds : Statement → Catalog → Bool
  holds (create_table name columns constraint) c = has_key name c.tables
  holds (create_index name table on) c =
      has_key table c.tables && (contains c.indexes name && accepts on)
  holds (add_column table new) c = column_there new (lookup table c.tables)

  abbrev pub all_hold : List Statement → Catalog → Bool
  all_hold [] c = true
  all_hold (s ∷ statements) c = holds s c && all_hold statements c

  has_column-append :
      (name : String) (new : Column) (columns : List Column)
      → has_column name (columns ++ (new ∷ []))
        ≡ (if has_column name columns then true else new.name == name)
  has_column-append name new [] = ground arith
  has_column-append name new (c ∷ columns) = ground (arith, has_column-append name new columns)

  has_column-append_old :
      (name : String) (new : Column) (columns : List Column)
      → has_column name columns ≡ true
      → has_column name (columns ++ (new ∷ [])) ≡ true
  has_column-append_old name new columns h = rw (has_column-append name new columns, h)

  has_column-append_new :
      (new : Column) (columns : List Column) → has_column new.name (columns ++ (new ∷ [])) ≡ true
  has_column-append_new new columns = ground (arith, has_column-append new.name new columns)

  column_made-holds :
      (table : String) (new : Column) (c c' : Catalog) (found : Option (List Column))
      → lookup table c.tables ≡ found
      → column_made accepts table new c found ≡ ok c'
      → column_there new (lookup table c'.tables) ≡ true
  column_made-holds table new c c' none at e = cc e
  column_made-holds table new c c' (some columns) at e = ground (
    arith,
    has_column-append_new new columns,
    lookup-insert table table (columns ++ (new ∷ [])) c.tables,
  )

  column_made-has_key :
      (table other : String) (new : Column) (c c' : Catalog) (found : Option (List Column))
      → column_made accepts table new c found ≡ ok c'
      → has_key other c.tables ≡ true
      → has_key other c'.tables ≡ true
  column_made-has_key table other new c c' none e h = cc e
  column_made-has_key table other new c c' (some columns) e h =
      ground (arith, lookup-insert other table (columns ++ (new ∷ [])) c.tables)

  column_made-grows :
      (table other : String) (new old : Column) (c c' : Catalog) (found : Option (List Column))
      → lookup table c.tables ≡ found
      → column_made accepts table new c found ≡ ok c'
      → column_there old (lookup other c.tables) ≡ true
      → column_there old (lookup other c'.tables) ≡ true
  column_made-grows table other new old c c' none at e h = cc e
  column_made-grows table other new old c c' (some columns) at e h = ground (
    arith,
    has_column-append_old old.name new columns,
    lookup-insert other table (columns ++ (new ∷ [])) c.tables,
  )

  apply-grows :
      (s : Statement) (c c' : Catalog) (other : String) (old : Column)
      → apply accepts s c ≡ ok c'
      → column_there old (lookup other c.tables) ≡ true
      → column_there old (lookup other c'.tables) ≡ true
  unfolding apply
  apply-grows (create_table name columns constraint) c c' other old e h =
      ground (arith, lookup-insert other name columns c.tables)
  apply-grows (create_index name table on) c c' other old e h = ground arith
  apply-grows (add_column table new) c c' other old e h =
      column_made-grows table other new old c c' (lookup table c.tables) refl e h

  apply-has_key :
      (s : Statement) (c c' : Catalog) (other : String)
      → apply accepts s c ≡ ok c'
      → has_key other c.tables ≡ true
      → has_key other c'.tables ≡ true
  unfolding apply
  apply-has_key (create_table name columns constraint) c c' other e h =
      ground (arith, lookup-insert other name columns c.tables)
  apply-has_key (create_index name table on) c c' other e h = ground arith
  apply-has_key (add_column table new) c c' other e h =
      column_made-has_key table other new c c' (lookup table c.tables) e h

  apply-indexes :
      (s : Statement) (c c' : Catalog) (name : String)
      → apply accepts s c ≡ ok c'
      → contains c.indexes name ≡ true
      → contains c'.indexes name ≡ true
  unfolding apply
  apply-indexes (create_table other columns constraint) c c' name e h = ground arith
  apply-indexes (create_index other table on) c c' name e h = ground arith
  apply-indexes (add_column table new) c c' name e h = ground arith

  apply-holds : (s : Statement) (c c' : Catalog) → apply accepts s c ≡ ok c' → holds s c' ≡ true
  unfolding apply
  apply-holds (create_table name columns constraint) c c' e =
      ground (arith, lookup-insert name name columns c.tables)
  apply-holds (create_index name table on) c c' e = ground arith
  apply-holds (add_column table new) c c' e =
      column_made-holds table new c c' (lookup table c.tables) refl e

  holds-apply : (s : Statement) (c : Catalog) → holds s c ≡ true → apply accepts s c ≡ ok c
  unfolding apply
  holds-apply (create_table name columns constraint) c h = ground arith
  holds-apply (create_index name table on) c h = ground arith
  holds-apply (add_column table new) c h = ground arith

  -- What holds stays under every statement that succeeds.
  apply-keeps :
      (s t : Statement) (c c' : Catalog)
      → apply accepts s c ≡ ok c'
      → holds t c ≡ true
      → holds t c' ≡ true
  apply-keeps s (create_table name columns constraint) c c' e h = apply-has_key s c c' name e h
  apply-keeps s (create_index name table on) c c' e h =
      ground (arith, apply-has_key s c c' table e, apply-indexes s c c' name e)
  apply-keeps s (add_column table new) c c' e h = apply-grows s c c' table new e h

  run_script-keeps :
      (statements : List Statement) (t : Statement) (c c' : Catalog)
      → run_script accepts statements c ≡ ok c'
      → holds t c ≡ true
      → holds t c' ≡ true
  unfolding run_script
  run_script-keeps [] t c c' e h = ground arith
  run_script-keeps (s ∷ statements) t c c' e h =
      let (mid, rest, first) = bind_parts (run_script accepts statements) (apply accepts s c) e in
      run_script-keeps statements t mid c' rest (apply-keeps s t c mid first h)

  -- After a script that succeeded all its statements hold.
  pub run_script-all_hold :
      (statements : List Statement) (c c' : Catalog)
      → run_script accepts statements c ≡ ok c'
      → all_hold statements c' ≡ true
  unfolding run_script
  run_script-all_hold [] c c' e = refl
  run_script-all_hold (s ∷ statements) c c' e =
      let (mid, rest, first) = bind_parts (run_script accepts statements) (apply accepts s c) e in
      let kept = run_script-keeps statements s mid c' rest (apply-holds s c mid first) in
      ground (arith, kept, run_script-all_hold statements mid c' rest)

  -- Where all its statements hold, a script changes nothing.
  pub all_hold-run_script :
      (statements : List Statement) (c : Catalog)
      → all_hold statements c ≡ true
      → run_script accepts statements c ≡ ok c
  unfolding run_script
  all_hold-run_script [] c h = refl
  all_hold-run_script (s ∷ statements) c h =
      let here : holds s c ≡ true = ground arith in
      let later : all_hold statements c ≡ true = ground arith in
      rw (holds-apply s c here) (all_hold-run_script statements c later)
