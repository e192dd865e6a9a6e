-- ===== src/Tests.antt =====
-- Concrete parts, requests and answers of the graph for the tests, in exact thousandths.
pub mod Spaces
pub mod Checks
pub mod Builds
pub mod Estimates
pub mod Choices
pub mod SavedBuilds
pub mod Agreement
pub mod Rows
pub mod Saving
pub mod Reviews
pub mod Access
pub mod Approvals
pub mod Jobs
pub mod Prices
use ai_repo.Prelude.{
  ℕ, String, Option, none, some, Bool, true, false, List, [], ◌∷◌, pos, ◌==◌, elem, filter, map,
  if◌then◌else◌, take, ◌&&◌, ◌*◌, ◌+◌, ◌/◌, ltb,
}
use ai_repo.Runtime.{Milli, milli_builtins}
use ai_repo.Domain.{
  ComponentKind, ComponentNode, Properties, Value, scalar, int, text, SelectedComponents,
}
use ai_repo.Performance.{Numpy, Vector}
use ai_repo.Repository.{Repository}

abbrev pub amount : ℕ → Value Milli
amount n = scalar (int (pos n))

abbrev pub word : String → Value Milli
word s = scalar (text s)

-- A node with a price in dollars.
abbrev pub node :
    String
    → ComponentKind
    → ℕ
    → (specs dimensions bandwidth power : Properties Milli) → ComponentNode Milli
node id kind price specs dimensions bandwidth power = record {
  id = id;
  kind = kind;
  name = id;
  brand = none;
  price_usd = some (price * 1000);
  specs = specs;
  dimensions = dimensions;
  bandwidth = bandwidth;
  power = power;
  raw = [];
}

abbrev pub cpu : ComponentNode Milli
cpu =
    node "cpu-7700" ComponentKind.cpu 300 [] [] (("pcie_lanes", amount 24) ∷ [])
      (("tdp_w", amount 65) ∷ [])

abbrev pub gpu : ComponentNode Milli
gpu =
    node "gpu-4070" ComponentKind.gpu 550 [] (("length_mm", amount 300) ∷ [])
      (("pcie_lanes_required", amount 16) ∷ []) (("board_power_w", amount 200) ∷ [])

abbrev pub long_gpu : ComponentNode Milli
long_gpu =
    node "gpu-4090" ComponentKind.gpu 1600 [] (("length_mm", amount 340) ∷ []) []
      (("board_power_w", amount 450) ∷ [])

abbrev pub board : ComponentNode Milli
board =
    node "board-b650" ComponentKind.motherboard 180 (("form_factor", word "ATX") ∷ []) []
      (("usb_20_headers", amount 2) ∷ ("usb_controller_gbps", amount 40) ∷ []) []

abbrev pub ram : ComponentNode Milli
ram = node "ram-32" ComponentKind.ram 100 (("speed_mt_s", amount 6000) ∷ []) [] [] []

abbrev pub storage : ComponentNode Milli
storage = node "ssd-1tb" ComponentKind.storage 80 [] [] (("pcie_lanes_required", amount 4) ∷ []) []

abbrev pub cooler : ComponentNode Milli
cooler =
    node "cooler-ak" ComponentKind.cooler 40 (("cooling_capacity_w", amount 220) ∷ [])
      (("height_mm", amount 155) ∷ []) [] []

abbrev pub case : ComponentNode Milli
case =
    node "case-north" ComponentKind.case 130 (("supported_form_factors", word "ATX|mATX") ∷ [])
      (("gpu_clearance_mm", amount 320) ∷ ("cooler_clearance_mm", amount 170) ∷ [])
      (("front_usb_20_ports", amount 1) ∷ []) []

abbrev pub psu : ComponentNode Milli
psu = node "psu-750" ComponentKind.psu 90 (("continuous_wattage", amount 750) ∷ []) [] [] []

abbrev pub all_nodes : List (ComponentNode Milli)
all_nodes = cpu ∷ gpu ∷ long_gpu ∷ board ∷ ram ∷ storage ∷ cooler ∷ case ∷ psu ∷ []

abbrev pub catalog : ComponentKind → List (ComponentNode Milli)
catalog ComponentKind.cpu = cpu ∷ []
catalog ComponentKind.gpu = gpu ∷ long_gpu ∷ []
catalog ComponentKind.motherboard = board ∷ []
catalog ComponentKind.ram = ram ∷ []
catalog ComponentKind.storage = storage ∷ []
catalog ComponentKind.cooler = cooler ∷ []
catalog ComponentKind.case = case ∷ []
catalog ComponentKind.psu = psu ∷ []

abbrev pub repository : Repository Milli
repository = record {
  components_by_ids = λ wanted.
      map (λ (n : ComponentNode Milli). (n.id, n))
        (filter (λ (n : ComponentNode Milli). elem n.id wanted) all_nodes);
  components_by_kind = λ kind limit. take limit (catalog kind);
  socket_match = λ c b. c == "cpu-7700" && b == "board-b650";
  memory_type_supported = λ r b. true;
  qvl_validated = λ r b. true;
  cooler_socket_support = λ k c. true;
  known_space_blockers = λ wanted. [];
  component_options = λ kind selection limit qvl size.
      map (λ (n : ComponentNode Milli). n.id) (take limit (catalog kind));
}

abbrev pub selection : SelectedComponents
selection = record {
  cpu_id = some "cpu-7700";
  gpu_id = some "gpu-4070";
  motherboard_id = some "board-b650";
  ram_id = some "ram-32";
  case_id = some "case-north";
  cooler_id = some "cooler-ak";
  storage_id = some "ssd-1tb";
  psu_id = some "psu-750";
}

-- The functions of numpy on thousandths.
abbrev pub numpy : Numpy Milli
numpy = record {
  dot =
      λ (a b : Vector Milli). (a.first * b.first + a.second * b.second + a.third * b.third) / 1000;
  divide = λ (a b : Vector Milli). record {
    first = a.first * 1000 / b.first;
    second = a.second * 1000 / b.second;
    third = a.third * 1000 / b.third;
  };
  clip = λ x lo hi. if ltb x lo then lo else if ltb hi x then hi else x;
}
