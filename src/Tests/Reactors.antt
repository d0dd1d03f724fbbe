-- ===== src/Tests/Reactors.antt =====
-- A reactor in which one descriptor is registered.
use libasynckafkaclient.Prelude.{◌≡◌, refl, true, false, some, [], ◌∷◌, arith, inl}
use libasynckafkaclient.Prelude.Int.{pos}
use libasynckafkaclient.Outcome.{Keeps, ok}
use libasynckafkaclient.Reactor.{
  Event, Reactor, find_fd, new_event, register_fd_callback, destroy, aeventin, aeventout,
}
use libasynckafkaclient.Reactor.Invariant.{Inv, register_fd_callback-Inv}
use libasynckafkaclient.Reactor.Watch.{register_fd_callback_leaks}
use libasynckafkaclient.Tests.Data.{reactor}

abbrev event : Event
event = new_event reactor (pos 7) 0 aeventin false

-- The event has been added for descriptor 7.
abbrev watching : Reactor
watching = record reactor { events = (pos 7, event) ∷ []; live = event ∷ []; next_id = 1 }

watching-Inv : Inv watching
unfolding find_fd
watching-Inv = record {
  tracked = refl;
  fresh = (omega arith, tt);
  distinct = (refl, tt);
  filed = (refl, tt);
}

found : find_fd (pos 7) watching.events ≡ some event
unfolding find_fd
found = refl

register_fd_callback-Inv_example :
    Keeps Inv (register_fd_callback true true (pos 7) 0 aeventout false true watching)
register_fd_callback-Inv_example =
    register_fd_callback-Inv true true (pos 7) 0 aeventout false true watching (inl refl)
      watching-Inv

register_fd_callback_leaks_example :
    (r' : Reactor) × (register_fd_callback true true (pos 7) 0 aeventout false false watching
      ≡ ok r')
    × (r'.live ≡ new_event watching (pos 7) 0 aeventout false ∷ event ∷ [])
    × (r'.events ≡ (pos 7, event) ∷ [])
    × ((destroy r').live ≡ new_event watching (pos 7) 0 aeventout false ∷ [])
register_fd_callback_leaks_example =
    register_fd_callback_leaks (pos 7) 0 aeventout false watching event watching-Inv refl found
