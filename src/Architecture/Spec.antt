-- ===== src/Architecture/Spec.antt =====
-- The data of src/verifier/architecture.h, the builders, and the effects of nodes.
use arcana.Common.{
  ℕ, Bool, true, false, ◌&&◌, ◌||◌, List, [], ◌∷◌, ◌++◌, leb, ◌==◌, if◌then◌else◌, length,
}
use arcana.Graph.Types.{NodeKind, node_print}

-- `ArcEffect`; the effect is the bit with its `effect_bit`.
pub data Effect : Type 0 where
  effect_clock effect_logger effect_network effect_filesystem effect_hardware effect_input : Effect

unfoldable pub effect_bit : Effect → ℕ
effect_bit effect_clock = 0
effect_bit effect_logger = 1
effect_bit effect_network = 2
effect_bit effect_filesystem = 3
effect_bit effect_hardware = 4
effect_bit effect_input = 5

-- `ArcEffectSet`, by its bits.
abbrev pub EffectSet : Type 0
EffectSet = ℕ → Bool

abbrev pub pure_set : EffectSet
pure_set b = false

unfoldable pub single : Effect → EffectSet
unfolding effect_bit
single e b = effect_bit e == b

-- The operator `|`.
abbrev pub union : EffectSet → EffectSet → EffectSet
union x y b = x b || y b

pub record RegionSpec : Type 0 where
  pub region : ℕ
  pub is_sealed : Bool
  pub capabilities : EffectSet

pub record ArchChannel : Type 0 where
  pub from_region : ℕ
  pub to_region : ℕ

pub record ArchSpec : Type 0 where
  pub regions : List RegionSpec
  pub channels : List ArchChannel

-- The kinds of messages, with the bit or the region that the message names.
pub data ArchMessage : Type 0 where
  undeclared_capability crosses_boundary : ℕ → ArchMessage

pub record ArchError : Type 0 where
  pub region : ℕ
  pub message : ArchMessage

pub record ArchResult : Type 0 where
  pub errors : List ArchError
  pub valid : Bool

abbrev pub max_regions : ℕ
max_regions = 64

abbrev pub max_channels : ℕ
max_channels = 64

abbrev pub max_arch_errors : ℕ
max_arch_errors = 32

unfoldable pub arch_spec_init : ArchSpec
arch_spec_init = record { regions = []; channels = [] }

unfoldable pub arch_spec_add_sealed : ArchSpec → ℕ → EffectSet → ArchSpec
arch_spec_add_sealed spec r caps =
    if leb max_regions (length spec.regions) then spec else record spec {
      regions = spec.regions ++ record { region = r; is_sealed = true; capabilities = caps } ∷ [];
    }

unfoldable pub arch_spec_add_channel : ArchSpec → ℕ → ℕ → ArchSpec
arch_spec_add_channel spec from to =
    if leb max_channels (length spec.channels) then spec else record spec {
      channels = spec.channels ++ record { from_region = from; to_region = to } ∷ [];
    }

unfoldable pub add_error : ArchResult → ℕ → ArchMessage → ArchResult
add_error r region message = if leb max_arch_errors (length r.errors) then r else record {
  errors = r.errors ++ record { region = region; message = message } ∷ [];
  valid = false;
}

unfoldable pub node_effect : NodeKind → EffectSet
unfolding single
node_effect k = elim k [ node_print ↦ single effect_logger | _ ↦ pure_set ]

-- The numbers of print, clock and input in `ArcIntrinsicId`.
unfoldable pub intrinsic_effect : ℕ → EffectSet
unfolding single
intrinsic_effect id =
    if id == 0
    then single effect_logger
    else if id == 1
    then single effect_clock
    else if id == 5
    then single effect_input
    else pure_set

-- The bytes of the names.
unfoldable pub effect_name : Effect → List ℕ
effect_name effect_clock = 67 ∷ 108 ∷ 111 ∷ 99 ∷ 107 ∷ []
effect_name effect_logger = 76 ∷ 111 ∷ 103 ∷ 103 ∷ 101 ∷ 114 ∷ []
effect_name effect_network = 78 ∷ 101 ∷ 116 ∷ 119 ∷ 111 ∷ 114 ∷ 107 ∷ []
effect_name effect_filesystem = 70 ∷ 105 ∷ 108 ∷ 101 ∷ 115 ∷ 121 ∷ 115 ∷ 116 ∷ 101 ∷ 109 ∷ []
effect_name effect_hardware = 72 ∷ 97 ∷ 114 ∷ 100 ∷ 119 ∷ 97 ∷ 114 ∷ 101 ∷ []
effect_name effect_input = 73 ∷ 110 ∷ 112 ∷ 117 ∷ 116 ∷ []

-- `strcmp(a, b) == 0`
unfoldable pub same_name : List ℕ → List ℕ → Bool
same_name [] [] = true
same_name [] (y ∷ ys) = false
same_name (x ∷ xs) [] = false
same_name (x ∷ xs) (y ∷ ys) = x == y && same_name xs ys

unfoldable pub effect_parse : List ℕ → EffectSet
unfolding same_name effect_name single
effect_parse name =
    if same_name name (effect_name effect_clock)
    then single effect_clock
    else if same_name name (effect_name effect_logger)
    then single effect_logger
    else if same_name name (effect_name effect_network)
    then single effect_network
    else if same_name name (effect_name effect_filesystem)
    then single effect_filesystem
    else if same_name name (effect_name effect_hardware)
    then single effect_hardware
    else if same_name name (effect_name effect_input)
    then single effect_input
    else pure_set
