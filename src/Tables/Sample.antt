-- ===== src/Tables/Sample.antt =====
-- A small database: an event with its message posted, two characters of whom one is signed up and seated,
-- one late request and one notification that waits.
use raider_mate_service.Prelude.{ℕ, true, false, none, some, [], ◌∷◌}
use raider_mate_service.Prelude.Int.{pos}
use raider_mate_service.Comp.Types.{RoleEnum, manual, Assignment, by_raid_lead}
use raider_mate_service.Signup.Types.{
  Event, EventType, confirmed, declined, RequestState, comp_changed, to_message, empty_object,
}
use raider_mate_service.Tables.{Db, CharacterRow, NotificationRow}

abbrev pub raid_night : Event
raid_night = record {
  id = 1;
  discord_guild_id = 9;
  event_type = EventType.raid;
  title = "Tuesday";
  starts_at = 1000;
  signup_deadline = 500;
  message_id = some 3;
  channel_id = some 4;
  comp_template = "";
  difficulty = none;
  reminder_lead_minutes = none;
  warcraft_logs_url = none;
}

abbrev character : ℕ → CharacterRow
character id = record { id = id; name = "Flex"; is_main = true; ilvl = none; mplus_score = none }

abbrev pub seat_of : ℕ → Assignment
seat_of id = record {
  character_id = id;
  role = RoleEnum.tank;
  slot_index = pos 0;
  is_bench = false;
  reason = by_raid_lead;
}

abbrev pub waiting : NotificationRow
waiting = record {
  id = 20;
  notification = record {
    discord_guild_id = 9;
    event_id = 1;
    kind = comp_changed;
    target_kind = to_message;
    discord_id = none;
    role_ids = [];
    discord_ids = [];
    channel_id = some 4;
    payload = empty_object;
  };
  created_at = 5;
  delivered_at = none;
  claimed_at = none;
}

-- Character 7 sits on the raid lead's comp "main".
abbrev pub sample : Db
sample = record {
  events = raid_night ∷ [];
  characters = character 7 ∷ character 8 ∷ [];
  character_roles = [];
  signups =
      record {
        id = 11;
        event_id = 1;
        character_id = 7;
        status = confirmed;
        assigned_role = none;
        late_until = none;
        note = none;
        created_at = 2;
      }
      ∷ [];
  comps = record { event_id = 1; name = "main"; mode = manual } ∷ [];
  comp_slots = record { event_id = 1; comp_name = "main"; slot = seat_of 7 } ∷ [];
  late_requests =
      record {
        id = 5;
        event_id = 1;
        character_id = 8;
        status = declined;
        note = none;
        late_until = none;
        state = RequestState.pending;
        created_at = 3;
        decided_at = none;
      }
      ∷ [];
  notifications = waiting ∷ [];
  raid_lead_roles = [];
  next_id = 30;
  now = 600;
}
