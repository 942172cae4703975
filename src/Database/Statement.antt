-- ===== src/Database/Statement.antt =====
-- The texts of the statements (core/db.cxx). Names and documents are put between quotes as they are.
use Prim.Native.String.{◌++◌}
use marinatb.Common.{String, List, [], ◌∷◌}

-- What is written to a stringstream, piece by piece.
abbrev pub written : List String → String
written [] = ""
written (piece ∷ rest) = piece ++ written rest

-- "'"+text+"'"
abbrev pub quoted : String → String
quoted x = "'" ++ (x ++ "'")

unfoldable pub save_blueprint_text : String → String → String
save_blueprint_text project doc = written (
    "INSERT INTO blueprints (project, doc) values("
    ∷ "(select id FROM projects WHERE name="
    ∷ quoted project
    ∷ "), "
    ∷ quoted doc
    ∷ ") "
    ∷ "ON CONFLICT (project, (doc->>'name')) "
    ∷ "DO UPDATE SET doc = "
    ∷ quoted doc
    ∷ " RETURNING id"
    ∷ [])

unfoldable pub fetch_blueprint_text : String → String → String
fetch_blueprint_text project name = written (
    "SELECT doc FROM blueprints where project = (SELECT id FROM projects WHERE name = '" ∷ project
    ∷ "') AND (doc->>'name') = '" ∷ name ∷ "'" ∷ [])

unfoldable pub fetch_blueprints_text : String → String
fetch_blueprints_text project = written (
    "SELECT doc FROM blueprints where project = (SELECT id FROM projects WHERE name = '" ∷ project
    ∷ "')" ∷ [])

unfoldable pub delete_blueprint_text : String → String → String
delete_blueprint_text project name = written (
    "DELETE FROM blueprints where project = (SELECT id FROM projects WHERE name = '" ∷ project
    ∷ "') AND (doc->>'name') = '" ∷ name ∷ "'" ∷ [])

unfoldable pub save_materialization_text : String → String → String → String
save_materialization_text project bpid doc = written (
    "INSERT INTO materializations (blueprint, doc) values("
    ∷ "( select id FROM blueprints WHERE project = (SELECT id FROM projects WHERE name = "
    ∷ quoted project
    ∷ ") AND (doc->>'name') = "
    ∷ quoted bpid
    ∷ "), "
    ∷ quoted doc
    ∷ ") ON CONFLICT (blueprint) DO UPDATE SET doc = "
    ∷ quoted doc
    ∷ " RETURNING id"
    ∷ [])

-- The row of a materialization, in a statement that begins with the given text.
abbrev pub of_materialization : String → String → String → String
of_materialization verb project bpid = written (
    verb
    ∷ " FROM materializations WHERE blueprint = (SELECT id FROM blueprints WHERE (doc->>'name') = "
    ∷ quoted bpid
    ∷ " AND project = (SELECT id FROM projects WHERE name = "
    ∷ quoted project
    ∷ "))"
    ∷ [])

unfoldable pub fetch_materialization_text : String → String → String
fetch_materialization_text project bpid = of_materialization "SELECT doc" project bpid

unfoldable pub delete_materialization_text : String → String → String
delete_materialization_text project bpid = of_materialization "DELETE" project bpid

unfoldable pub fetch_materializations_text : String → String
fetch_materializations_text project = written (
    "SELECT doc FROM materializations where blueprint IN "
    ∷ "(SELECT id FROM blueprints WHERE project = (SELECT id FROM projects WHERE name = '" ∷ project
    ∷ "'))" ∷ [])

unfoldable pub set_topology_text : String → String
set_topology_text doc = written (
    "INSERT INTO hw_topology (doc) values("
    ∷ quoted doc
    ∷ ") ON CONFLICT (id) DO UPDATE set doc = "
    ∷ quoted doc
    ∷ " RETURNING id"
    ∷ [])

unfoldable pub new_vni_text : String → String
new_vni_text netid =
    written ("INSERT INTO vxlan (netid) values('" ∷ netid ∷ "') RETURNING vni" ∷ [])

unfoldable pub free_vni_text : String → String
free_vni_text netid = written ("DELETE FROM vxlan WHERE netid = '" ∷ netid ∷ "'" ∷ [])
