-- ===== src/Examples/Api.antt =====
-- Examples of the group requests and the device options, over storages that keep what is written.
use zhac_mono_core.Prelude.{
  ◌+◌, ◌≡◌, ◌≤◌, refl, true, false, some, none, List, [], ◌∷◌, ◌++◌, arith, length, length-append,
  replicate, take,
}
use zhac_mono_core.Prelude.Text.{bytes}
use zhac_mono_core.Document.{
  object_of, member, lookup, same, as_array, uint_or, is_null, serialize_to,
}
use zhac_mono_core.Groups.Storage.{GrpRecord, GrpMember}
use zhac_mono_core.Groups.{no_member, grp_save, save_bitmap, grp_find, head_text}
use zhac_mono_core.Utf8.{utf8_seq_len, lead}
use zhac_mono_core.JsonWriter.{str_piece}
use zhac_mono_core.JsonWriter.Escape.{escaped, escaped_from}
use zhac_mono_core.Groups.Row.{row_text, rest_text, members_text}
use zhac_mono_core.Groups.Api.{
  parse_members, group_get, group_update, row_of, list_text, empty_group, parse_body, send_from,
  edited,
}
use zhac_mono_core.Groups.Api.Listing.{joined, row_of-crowded, list_text-joined}
use zhac_mono_core.Groups.Api.Members.{
  listed, all_described, parse_members-described, outcomes, successes, failures, send_from-outcomes,
}
use zhac_mono_core.Groups.Api.Kept.{group_get-update}
use zhac_mono_core.Options.{
  device_options_set, device_options_restore_all, apply_opts, opts_nvs, persist,
}
use zhac_mono_core.Options.Kept.{kept_ieee, restore-set}
use zhac_mono_core.Bridge.GroupVerbs.{commands}
use zhac_mono_core.Examples.Flash.{Flash, flash_nvs, flash_nvs-IsNvs}
use zhac_mono_core.Examples.Hub.{
  three_texts, members_doc, lamps_hub, quiet_shadow, one_entry, one_entry-IsNvs,
}

parse_members-described_example :
    listed (parse_members three_texts (bytes "g") empty_group)
    ≡ take 16 (all_described (as_array (member members_doc "members")))
parse_members-described_example =
    parse_members-described three_texts (bytes "g") empty_group refl refl

abbrev two : List GrpMember
two = record { ieee = 4; ep = 1 } ∷ record { ieee = 2; ep = 1 } ∷ []

send_from-outcomes_example :
    (send_from (commands lamps_hub) two 2 0 (bytes "state") 1 [] 0 0 ≡ (
      (outcomes (commands lamps_hub) (bytes "state") 1 two []).0,
      successes (outcomes (commands lamps_hub) (bytes "state") 1 two []).1,
      failures (outcomes (commands lamps_hub) (bytes "state") 1 two []).1,
    ))
    × (successes (outcomes (commands lamps_hub) (bytes "state") 1 two []).1
          + failures (outcomes (commands lamps_hub) (bytes "state") 1 two []).1
        ≡ 2)
send_from-outcomes_example =
    send_from-outcomes (commands lamps_hub) (bytes "state") 1 two 2 [] (omega arith)

abbrev crowd : GrpRecord
crowd = record { id = 1; name = bytes "all"; member_count = 7; members = replicate 16 no_member }

row_of-crowded_example : row_of crowd 256 ≡ []
row_of-crowded_example = row_of-crowded crowd 256 (omega arith) (omega arith)

abbrev small_group : GrpRecord
small_group = record {
  id = 3;
  name = bytes "hall";
  member_count = 0;
  members = replicate 16 no_member;
}

hall_small : length (row_text small_group) ≤ 256
unfolding row_text rest_text members_text head_text escaped escaped_from str_piece utf8_seq_len lead
hall_small = omega arith

hall_joined : length (joined 0 (small_group ∷ [])) + 14 ≤ 4096
unfolding joined
hall_joined = omega (arith, length-append (row_text small_group) [], hall_small)

list_text-joined_example :
    ((list_text (small_group ∷ []) 4096).1
      ≡ bytes "{\"groups\":[" ++ (joined 0 (small_group ∷ []) ++ bytes "]}"))
    × ((list_text (small_group ∷ []) 4096).0 ≡ length (list_text (small_group ∷ []) 4096).1)
list_text-joined_example = list_text-joined (small_group ∷ []) 4096 (hall_small, tt) hall_joined

-- A flash that holds this group under every key.
abbrev with_hall : Flash
with_hall = record {
  words = λ k. none;
  blobs = λ k. some (record { content = small_group; whole = true });
}

abbrev saved_hall : Flash
saved_hall = (group_update (flash_nvs true) three_texts with_hall (bytes "g") 512).0

group_get-update_example :
    group_get (flash_nvs true) three_texts saved_hall (bytes "g") 512
    ≡ some (row_of small_group 512)
unfolding parse_body uint_or member lookup same object_of group_update grp_find grp_save save_bitmap
    edited is_null
group_get-update_example =
    group_get-update (flash_nvs true) (flash_nvs-IsNvs true) three_texts with_hall saved_hall
      (bytes "g") (bytes "g") 512 refl refl refl refl refl

restore-set_example :
    (device_options_restore_all quiet_shadow one_entry three_texts (record {
      s_open = false;
      flash =
          (device_options_set quiet_shadow one_entry three_texts
            (record { s_open = false; flash = none; state = [] })
            0xA4C1380000000001
            (bytes "{}")).0.flash;
      state = [];
    })).state
    ≡ (apply_opts quiet_shadow one_entry three_texts []
        (kept_ieee 0xA4C1380000000001)
        members_doc).0
unfolding device_options_set opts_nvs persist serialize_to
restore-set_example =
    restore-set quiet_shadow one_entry one_entry-IsNvs three_texts
      (record { s_open = false; flash = none; state = [] }) 0xA4C1380000000001 (bytes "{}")
      members_doc [] (omega arith) (omega arith) refl refl (omega arith) (omega arith) refl refl
      refl refl
