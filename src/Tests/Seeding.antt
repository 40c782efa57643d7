-- ===== src/Tests/Seeding.antt =====
-- The theorems on the seeds, applied to a hall of two sections.
use ticket_booking.Base.{
  ℕ, ◌+◌, ◌*◌, ◌≡◌, refl, Option, none, some, List, [], ◌∷◌, Text, text_eq, codes, foldl, length,
  if◌then◌else◌,
}
use ticket_booking.Exceptions.{ok}
use ticket_booking.Env.{Env}
use ticket_booking.Action.{World}
use ticket_booking.Reservations.Effects.{saved}
use ticket_booking.Seeds.{
  SectionData, EventData, range_from, replace_z, seats_of_row, seats_of_rows, seats_of_sections,
  can_add_event, same_place, can_add_seats, create_seats, create_event, unless_found, create_events,
  dev_user, test_user, k6_user, test_users, user_key, new_user, user_if_new, new_users,
  can_add_users, create_users, load_data, load_seed_data,
}
use ticket_booking.Seeds.Formats.{digit, digits, decimal, hexadecimal, zero_fill}
use ticket_booking.Seeds.Creation.{Creates, create_event-eq-ok}
use ticket_booking.Seeds.Rerun.{load_seed_data_again}
use ticket_booking.Tests.Local.{local_env, at_time, empty_tables}

-- A longer text is read as a number.
abbrev parse_any : Text → Option ℕ
parse_any [] = none
parse_any (u ∷ []) = some u
parse_any (u ∷ c ∷ s) = some (foldl (λ n d. n * 256 + d) u (c ∷ s))

abbrev seed_env : Env
seed_env = record local_env { uuid_parse = parse_any; uuid_parse-uuid_str = λ u. refl }

abbrev any_instant : Text → Option ℕ
any_instant s = some (length s)

abbrev sections : List SectionData
sections =
    record { section_code = codes "A"; row_count = 2; seats_per_row = 3 }
    ∷ record { section_code = codes "B"; row_count = 1; seats_per_row = 2 }
    ∷ []

abbrev opening : EventData
opening = record {
  name = codes "Opening";
  description = none;
  location = codes "Hall";
  start_at = codes "2026-05-15T18:00:00Z";
  end_at = codes "2026-05-15T22:00:00Z";
  total_seats = 1000;
  price_per_section = λ s. if text_eq s (codes "A") then some 9000 else some 5000;
}

abbrev bare : World seed_env
bare = record {
  session = record {
    working = record empty_tables { users = []; events = []; seats = [] };
    committed = record empty_tables { users = []; events = []; seats = [] };
  };
  outside = at_time 0;
  counters = record { duplicates = 0; released = 0 };
}

creates : (create_event seed_env any_instant opening sections bare).0 ≡ ok tt
unfolding create_event create_seats seats_of_sections seats_of_rows seats_of_row range_from
    can_add_event can_add_seats same_place zero_fill decimal digits digit replace_z
creates = refl

create_event-eq-ok_example :
    Creates seed_env any_instant opening sections
      (record empty_tables { users = []; events = []; seats = [] })
      (create_event seed_env any_instant opening sections bare).1.session
create_event-eq-ok_example = create_event-eq-ok seed_env any_instant opening sections bare creates

loads : (load_data seed_env any_instant (opening ∷ []) sections bare).0 ≡ ok tt
unfolding load_data create_events unless_found create_event create_seats seats_of_sections
    seats_of_rows seats_of_row range_from can_add_event can_add_seats same_place zero_fill decimal
    digits digit replace_z hexadecimal dev_user test_user k6_user test_users user_key new_user
    user_if_new new_users can_add_users create_users
loads = refl

abbrev installed : World seed_env
installed = record (load_data seed_env any_instant (opening ∷ []) sections bare).1 {
  outside = at_time 9_000_000;
}

load_seed_data_again_example :
    (load_seed_data seed_env any_instant (opening ∷ []) sections installed).1.session
    ≡ saved installed.session.working
load_seed_data_again_example =
    load_seed_data_again seed_env any_instant sections (opening ∷ []) bare installed loads refl
