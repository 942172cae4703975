-- ===== src/Sample/Draws.antt =====
-- What the samples draw from the random device, and the sample blueprint read from its JSON.
use marinatb.Common.{◌≡◌, refl, List, [], ◌∷◌, ok, arith, ℕ, ◌+◌, ◌*◌, String}
use marinatb.Common.Dict
use marinatb.Sample.{little_endian}
use marinatb.Sample.Trees.{trees, trees-laws, unary, unary-laws}
use marinatb.Sample.Site.{pair_blueprint, interface, machine}
use marinatb.Ip.{of_string}
use marinatb.Json.Object.{Supply}
use marinatb.Json.WholeLaws.{IsBlueprint, to_blueprint-of_blueprint}
use marinatb.Json.PartLaws.{IsInterface, IsComputer}
use marinatb.Json.ValueLaws.{IsUuid}
use marinatb.Json.Wholes.{of_blueprint, to_blueprint}

-- Draws that differ from every id of the samples, and for each place in a call.
abbrev place : List ℕ → ℕ
place [] = 0
place (n ∷ path) = n + 1 + 10 * place path

abbrev pub draws : Supply
draws path = record { id = 1000 + place path; mac = "02:00" }

pub default_space : of_string little_endian "10.10.0.0" 16 ≡ ok (record { addr = 2570; mask = 16 })
unfolding of_string
default_space = refl

interface-IsInterface : (name mac : String) → IsInterface (interface name mac 1)
interface-IsInterface name mac = (omega arith, omega arith, (omega arith, omega arith))

machine-IsComputer :
    (name cifx_mac mac : String) (id : ℕ) → IsUuid id → IsComputer (machine name id 2 cifx_mac mac)
unfolding Dict.find
machine-IsComputer name cifx_mac mac id h = (
  omega arith,
  omega arith,
  h,
  (
    interface "cifx" cifx_mac 1,
    refl,
    ((refl, (refl, tt)), (refl, (refl, tt))),
    (interface-IsInterface "cifx" cifx_mac, (interface-IsInterface "eth0" mac, tt)),
  ),
)

pub pair-IsBlueprint : IsBlueprint pair_blueprint
unfolding Dict.find
pair-IsBlueprint = (
  omega arith,
  (
    machine-IsComputer "a" "a0" "a1" 11 (omega arith),
    (machine-IsComputer "b" "b0" "b1" 12 (omega arith), tt),
  ),
  ((omega arith, omega arith, (omega arith, omega arith), omega arith), tt),
  ((omega arith, omega arith), ((omega arith, omega arith), tt)),
  (((refl, (refl, tt)), (refl, (refl, tt))), ((refl, tt), (refl, tt))),
)

pub pair_read :
    to_blueprint trees unary little_endian draws (of_blueprint trees unary pair_blueprint)
    ≡ ok pair_blueprint
unfolding Dict.find Dict.erase
pair_read =
    to_blueprint-of_blueprint trees trees-laws unary unary-laws little_endian
      (record { addr = 2570; mask = 16 }) draws pair_blueprint default_space pair-IsBlueprint
