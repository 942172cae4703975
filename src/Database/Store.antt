-- ===== src/Database/Store.antt =====
-- The functions of class DB (core/db.cxx). `connect`, which waits for the database, is left out.
use marinatb.Common.{
  ℕ, suc, String, Bool, true, false, List, [], ◌∷◌, Result, ok, err, out_of_range, runtime_error,
  delete_active_blueprint, undefined, if◌then◌else◌,
}
use marinatb.Platform.{
  JsonLib, JsonText, UuidLib, Inet, PqLib, PgStatus, PgResult, tuples_ok, command_ok, failed,
}
use marinatb.Blueprint.Store.{Blueprint}
use marinatb.Topo.Testbed.{TestbedTopology}
use marinatb.Json.Object.{Supply, sub}
use marinatb.Json.Wholes.{to_blueprint, to_topology}
use marinatb.Database.Statement

-- A call that reads and changes the database. What was done before an exception stays done.
abbrev pub Query : Type 0 → Type 0 → Type 0
Query S A = S → Result A × S

module _ {A B S : Type 0} where
  abbrev pub continue : Result A × S → (A → Query S B) → Result B × S
  continue (ok a, s) next = next a s
  continue (err e, s) next = (err e, s)

infixl 5 ◌>>=◌
abbrev pub ◌>>=◌ : {A B S : Type 0} → Query S A → (A → Query S B) → Query S B
◌>>=◌ m next s = continue (m s) next

abbrev pub lift : {A S : Type 0} → Result A → Query S A
lift r s = (r, s)

abbrev same_status : PgStatus → PgStatus → Bool
same_status tuples_ok tuples_ok = true
same_status command_ok command_ok = true
same_status failed failed = true
same_status a b = false

-- The rows of a result, if it has the status that is asked for.
unfoldable pub checked : PgStatus → PgResult → Result (List String)
checked want r = if same_status r.status want then ok r.rows else err runtime_error

-- PQgetvalue(res, 0, 0) given to a string; there is no such value where there is no row.
abbrev pub value : List String → Result String
value [] = err undefined
value (x ∷ rows) = ok x

-- The same, where `PQntuples(res) == 0` is tested first.
abbrev pub found : List String → Result String
found [] = err out_of_range
found (x ∷ rows) = ok x

abbrev pub at_least_one : List String → Result String
at_least_one [] = err runtime_error
at_least_one (x ∷ rows) = ok x

module _ {J S : Type 0} (t : JsonText J) (l : JsonLib J) (u : UuidLib) (o : Inet)
    (q : PqLib S) where
  unfoldable pub run_query : PgStatus → String → Query S (List String)
  run_query want statement s = let (r, after) = q.exec statement s in (checked want r, after)

  unfoldable pub parse_blueprint : Supply → String → Result Blueprint
  parse_blueprint draw doc = elim (t.parse doc) [ ok j ↦ to_blueprint l u o draw j | err e ↦ err e ]

  unfoldable pub parse_blueprints : Supply → ℕ → List String → Result (List Blueprint)
  parse_blueprints draw n [] = ok []
  parse_blueprints draw n (doc ∷ docs) = elim (parse_blueprint (sub draw n) doc) [
    | err e ↦ err e
    | ok bp ↦ elim (parse_blueprints draw (suc n) docs) [ err e ↦ err e | ok bps ↦ ok (bp ∷ bps) ]
  ]

  unfoldable pub save_blueprint : String → J → Query S String
  save_blueprint project src = do
    rows ← run_query tuples_ok (Statement.save_blueprint_text project (l.dump src))
    lift (value rows)

  unfoldable pub fetch_blueprint : Supply → String → String → Query S Blueprint
  fetch_blueprint draw project name = do
    rows ← run_query tuples_ok (Statement.fetch_blueprint_text project name)
    doc ← lift (found rows)
    lift (parse_blueprint draw doc)

  unfoldable pub fetch_blueprints : Supply → String → Query S (List Blueprint)
  fetch_blueprints draw project = do
    rows ← run_query tuples_ok (Statement.fetch_blueprints_text project)
    lift (parse_blueprints draw 0 rows)

  unfoldable pub fetch_materialization : Supply → String → String → Query S Blueprint
  fetch_materialization draw project bpid = do
    rows ← run_query tuples_ok (Statement.fetch_materialization_text project bpid)
    doc ← lift (found rows)
    lift (parse_blueprint draw doc)

  unfoldable pub fetch_materializations : Supply → String → Query S (List Blueprint)
  fetch_materializations draw project = do
    rows ← run_query tuples_ok (Statement.fetch_materializations_text project)
    lift (parse_blueprints draw 0 rows)

  unfoldable pub run_command : String → Query S (Unit {0})
  run_command statement = do _ ← run_query command_ok statement; lift (ok tt)

  -- Only out_of_range of the first call lets the second be made.
  abbrev pub unless_active : Result Blueprint × S → Query S (Unit {0}) → Result (Unit {0}) × S
  unless_active (ok bp, s) next = (err delete_active_blueprint, s)
  unless_active (err out_of_range, s) next = next s
  unless_active (err e, s) next = (err e, s)

  unfoldable pub delete_blueprint : Supply → String → String → Query S (Unit {0})
  delete_blueprint draw project name s =
      unless_active (fetch_materialization draw project name s)
        (run_command (Statement.delete_blueprint_text project name))

  unfoldable pub save_materialization : String → String → J → Query S String
  save_materialization project bpid mzn = do
    rows ← run_query tuples_ok (Statement.save_materialization_text project bpid (l.dump mzn))
    lift (value rows)

  unfoldable pub delete_materialization : String → String → Query S (Unit {0})
  delete_materialization project bpid =
      run_command (Statement.delete_materialization_text project bpid)

  unfoldable pub set_hw_topo : J → Query S (Unit {0})
  set_hw_topo topo = do
    _ ← run_query tuples_ok (Statement.set_topology_text (l.dump topo))
    lift (ok tt)

  unfoldable pub parse_topology : Supply → String → Result TestbedTopology
  parse_topology draw doc = elim (t.parse doc) [ ok j ↦ to_topology l u o draw j | err e ↦ err e ]

  unfoldable pub fetch_hw_topo : Supply → Query S TestbedTopology
  fetch_hw_topo draw = do
    rows ← run_query tuples_ok "SELECT doc FROM hw_topology"
    doc ← lift (at_least_one rows)
    lift (parse_topology draw doc)

  abbrev pub delete_hw_topo : Query S (Unit {0})
  delete_hw_topo s = (err runtime_error, s)

  -- stoul is the parameter.
  unfoldable pub new_vxlan_vni : (String → Result ℕ) → String → Query S ℕ
  new_vxlan_vni stoul netid = do
    rows ← run_query tuples_ok (Statement.new_vni_text netid)
    text ← lift (value rows)
    lift (stoul text)

  unfoldable pub free_vxlan_vni : String → Query S (Unit {0})
  free_vxlan_vni netid = run_command (Statement.free_vni_text netid)
