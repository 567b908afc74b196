-- ===== src/Config.antt =====
-- config/config.go and config/subsidy.go: the protocol constants, the networks and the block subsidy.
pub mod Subsidy
use nmcd.Prelude.{ℕ, Bool, true, false, [], ◌∷◌, List, ◌==◌, ◌&&◌, ◌||◌, if◌then◌else◌}
use nmcd.Prelude.Bytes.{Bytes}
use nmcd.Int.{ℤ, pos}

abbrev pub name_expiration_blocks : ℤ
name_expiration_blocks = pos 36000

abbrev pub min_blocks_before_first_update : ℤ
min_blocks_before_first_update = pos 12

abbrev pub max_blocks_before_first_update : ℤ
max_blocks_before_first_update = pos 36000

abbrev pub max_name_length : ℕ
max_name_length = 255

abbrev pub max_value_length : ℕ
max_value_length = 520

abbrev pub dust_limit : ℤ
dust_limit = pos 546

abbrev pub min_name_operation_fee : ℤ
min_name_operation_fee = pos 1000000

abbrev pub min_relay_tx_fee : ℤ
min_relay_tx_fee = pos 1000

abbrev pub aux_pow_version_bit : ℕ
aux_pow_version_bit = 0x100

-- The magic values that tell the networks apart.
abbrev pub main_net_magic : ℕ
main_net_magic = 0xf9beb4fe

abbrev pub test_net_magic : ℕ
test_net_magic = 0xfabfb5fe

abbrev pub reg_test_magic : ℕ
reg_test_magic = 0xfabfb5da

-- The fields of btcd's `chaincfg.Params` that the consensus code reads.
pub record Params : Type 0 where
  pub net : ℕ
  pub subsidy_reduction_interval : ℕ

abbrev pub namecoin_main_net_params : Params
namecoin_main_net_params = record { net = main_net_magic; subsidy_reduction_interval = 210000 }

abbrev pub namecoin_reg_test_params : Params
namecoin_reg_test_params = record { net = reg_test_magic; subsidy_reduction_interval = 150 }

unfoldable pub get_aux_pow_activation_height : Params → ℤ
get_aux_pow_activation_height chain_params =
    if chain_params.net == main_net_magic
    then pos 19200
    else if chain_params.net == test_net_magic
    then pos 19200
    else if chain_params.net == reg_test_magic
    then pos 999999999
    else pos 19200

-- `strings.HasPrefix`
unfoldable pub has_prefix : Bytes → Bytes → Bool
has_prefix s [] = true
has_prefix [] (p ∷ ps) = false
has_prefix (c ∷ s) (p ∷ ps) = c == p && has_prefix s ps

-- "d/", "id/" and "p/"
abbrev pub valid_namespaces : List Bytes
valid_namespaces = (b'd' ∷ b'/' ∷ []) ∷ (b'i' ∷ b'd' ∷ b'/' ∷ []) ∷ (b'p' ∷ b'/' ∷ []) ∷ []

pub any_prefix : Bytes → List Bytes → Bool
any_prefix name [] = false
any_prefix name (ns ∷ rest) = has_prefix name ns || any_prefix name rest

unfoldable pub is_valid_namespace : Bytes → Bool
unfolding any_prefix has_prefix
is_valid_namespace name = any_prefix name valid_namespaces
