-- ===== src/Tests/Scripts.antt =====
-- Name scripts that are built, parsed and skipped.
use nmcd.Prelude.{◌≡◌, ◌↔◌, ◌≤◌, ◌*◌, ◌+◌, refl, [], ◌∷◌, ◌++◌, some, length, arith}
use nmcd.Prelude.Bytes.{Bytes}
use nmcd.Int.{pos}
use nmcd.Config.{namecoin_main_net_params, namecoin_reg_test_params}
use nmcd.Config.Subsidy.{
  initial_block_subsidy, calc_block_subsidy, calc_block_subsidy_antitone, total_subsidy,
  total_subsidy-le,
}
use nmcd.Result.{ok, Returns}
use nmcd.Script.{name_new, name_first_update, name_update, Parsed}
use nmcd.Script.Grammar.{direct, NameScript, update}
use nmcd.Script.PushData.{read_push_data, push_data}
use nmcd.Script.PushData.Writes.{read_push_data-push_data}
use nmcd.Script.Parse.{parse_name_script_full}
use nmcd.Script.Parse.Sound.{parse_name_script_full-Returns}
use nmcd.Script.Parse.Complete.{parse_name_script_full-eq-ok_iff}
use nmcd.Script.Build.{
  build_name_new_script, build_name_first_update_script, build_name_update_script, hex_decode,
  hex_digit,
}
use nmcd.Script.Build.RoundTrip.{
  parse-build_name_new_script, parse-build_name_first_update_script, parse-build_name_update_script,
}
use nmcd.Script.Skip.{address_of, extract_address_from_name_script}
use nmcd.Script.Skip.Suffix.{extract_address-suffix}
use nmcd.Tests.{key_hash, domain, braces, payment, update_script}

abbrev update_of_domain : Parsed
update_of_domain = record { op_type = name_update; name = domain; value = braces; extra = [] }

parse_name_script_full-eq-ok_iff_example :
    (parse_name_script_full update_script ≡ ok update_of_domain)
    ↔ NameScript update_of_domain update_script
parse_name_script_full-eq-ok_iff_example =
    parse_name_script_full-eq-ok_iff update_script update_of_domain

parse_name_script_full-Returns_example : Returns (parse_name_script_full update_script)
parse_name_script_full-Returns_example = parse_name_script_full-Returns update_script

update_is_NameScript : NameScript update_of_domain update_script
update_is_NameScript = record {
  opcode = 0xd2;
  pushes = (3 ∷ domain) ++ 2 ∷ braces;
  suffix = payment;
  fields =
      update (direct 3 domain (omega arith) (omega arith) refl)
        (direct 2 braces (omega arith) (omega arith) refl);
  long = omega arith;
  shape = refl;
}

parse_update : parse_name_script_full update_script ≡ ok update_of_domain
parse_update =
    (parse_name_script_full-eq-ok_iff update_script update_of_domain).1 update_is_NameScript

extract_address-suffix_example :
    (s : NameScript update_of_domain update_script) × (extract_address_from_name_script
        (λ script. some (script ∷ []))
        update_script
      ≡ ok (address_of (λ script. some (script ∷ [])) s.suffix))
extract_address-suffix_example =
    extract_address-suffix (λ script. some (script ∷ [])) update_script parse_update

parse-build_name_new_script_example :
    (script : Bytes) × (build_name_new_script key_hash key_hash ≡ ok script)
    × (parse_name_script_full script
        ≡ ok (record { op_type = name_new; name = []; value = []; extra = key_hash }))
parse-build_name_new_script_example = parse-build_name_new_script key_hash key_hash refl refl

parse-build_name_update_script_example :
    (script : Bytes) × (build_name_update_script domain braces key_hash ≡ ok script)
    × (parse_name_script_full script ≡ ok update_of_domain)
parse-build_name_update_script_example =
    parse-build_name_update_script domain braces key_hash (omega arith) (omega arith) (omega arith)
      refl

salt_decodes : hex_decode (b'0' ∷ b'f' ∷ []) ≡ some (15 ∷ [])
unfolding hex_decode hex_digit
salt_decodes = refl

parse-build_name_first_update_script_example :
    (script : Bytes) × (build_name_first_update_script domain (b'0' ∷ b'f' ∷ []) braces key_hash
      ≡ ok script)
    × (parse_name_script_full script
        ≡ ok (record {
          op_type = name_first_update;
          name = domain;
          value = braces;
          extra = 15 ∷ [];
        }))
parse-build_name_first_update_script_example =
    parse-build_name_first_update_script domain (b'0' ∷ b'f' ∷ []) (15 ∷ []) braces key_hash
      (omega arith) (omega arith) (omega arith) refl (omega arith) salt_decodes (omega arith)

read_push_data-push_data_example :
    (e : Bytes) × (push_data domain ≡ some e)
    × (read_push_data (0xd2 ∷ (e ++ payment)) 1 ≡ ok (domain, 1 + length e))
read_push_data-push_data_example = read_push_data-push_data (0xd2 ∷ []) domain payment (omega arith)

calc_block_subsidy_antitone_example :
    calc_block_subsidy (pos 420000) namecoin_main_net_params
    ≤ calc_block_subsidy (pos 210000) namecoin_main_net_params
calc_block_subsidy_antitone_example =
    calc_block_subsidy_antitone namecoin_main_net_params (omega arith) 210000 420000 (omega arith)

total_subsidy-le_example :
    total_subsidy 500 namecoin_reg_test_params ≤ 2 * (150 * initial_block_subsidy)
total_subsidy-le_example = total_subsidy-le namecoin_reg_test_params (omega arith) 500
