-- ===== src/Net/Channel/Tests.antt =====
-- The dispatch of a channel at one report.
use dws.Base.{◌≡◌, refl, [], ◌∷◌, true, false, inr}
use dws.Base.Int.{negsuc}
use dws.Net.Channel.{Channel, none_event, Callbacks, Call, read, write, handle_event}
use dws.Net.Channel.Dispatch.{IsAscending, contains, wanted, handle_event_lem}

abbrev all_set : Callbacks
all_set = record {
  close_callback = true;
  error_callback = true;
  read_callback = true;
  write_callback = true;
}

-- POLLIN | POLLHUP | POLLOUT
abbrev reported : Channel
reported = record {
  fd = 5;
  events = none_event;
  revents = record none_event { pollin = true; pollout = true; pollhup = true };
  index = negsuc 0;
  tied = true;
  event_handling = false;
  added_to_loop = true;
}

handle_event-reported : handle_event all_set true reported ≡ read ∷ write ∷ []
unfolding handle_event
handle_event-reported = refl

handle_event_lem_example :
    IsAscending 0 (handle_event all_set true reported)
    × ((call : Call)
        → contains call (handle_event all_set true reported) ≡ wanted all_set reported.revents call)
handle_event_lem_example = handle_event_lem all_set true reported (inr refl)
