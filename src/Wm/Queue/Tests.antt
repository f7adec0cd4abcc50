-- ===== src/Wm/Queue/Tests.antt =====
-- The theorems on the event queue at a queue with a few events.
use oscortex.Base.{◌-◌, ◌≡◌, refl, some, if◌then◌else◌, ltb, length, take}
use oscortex.Wm.Queue.{
  WmEvent, EventQueue, new, push, push_front, pop_for, ev_key, ev_vsync, has_baton_vsync_for,
  scan_queue, scan, push_stamped, push_pointer_or_append, append, drop_oldest, write_tail,
  drop_newest, write_head, is_baton_for, event_cap,
}
use oscortex.Wm.Queue.Spec
use oscortex.Wm.Queue.Entries.{new-IsRing, IsRing, entries, Holds}
use oscortex.Wm.Queue.Refine.{push_refines}
use oscortex.Wm.Queue.Front.{push_front_refines}
use oscortex.Wm.Queue.Pop.{pop_for_refines, seen}
use oscortex.Wm.Queue.Delivery.{Takes, pop_for-baton_first, pop_for-push_front_baton}

abbrev key : WmEvent
key = record { seq = 0; kind = ev_key; flags = 1; a = 30; b = 0 }

abbrev baton : WmEvent
baton = record { seq = 0; kind = ev_vsync; flags = 0; a = 0; b = 99 }

abbrev with_key : EventQueue
with_key = push new key 7

with_key-IsRing : IsRing with_key
with_key-IsRing = (push_refines new key 7 new-IsRing).ring

push_refines_example :
    Holds (push new key 7) (Spec.push (entries new) (record key { seq = new.next_seq }) 7)
push_refines_example = push_refines new key 7 new-IsRing

push_front_refines_example :
    Holds
      (push_front with_key baton 7)
      (Spec.push_front (entries with_key) (record baton { seq = with_key.next_seq }, 7))
push_front_refines_example = push_front_refines with_key baton 7 with_key-IsRing

pop_for_refines_example :
    (seen (pop_for with_key 7) ≡ Spec.pop_for (entries with_key) 7) × IsRing (pop_for with_key 7).0
pop_for_refines_example = pop_for_refines with_key 7 with_key-IsRing

abbrev with_both : EventQueue
with_both = push_front with_key baton 7

with_both-IsRing : IsRing with_both
with_both-IsRing = (push_front_refines with_key baton 7 with_key-IsRing).ring

pop_for-baton_first_example : Takes (is_baton_for 7) with_both (pop_for with_both 7)
unfolding new push push_front has_baton_vsync_for scan_queue scan push_stamped
    push_pointer_or_append append drop_oldest write_tail drop_newest write_head
pop_for-baton_first_example = pop_for-baton_first with_both 7 with_both-IsRing refl

pop_for-push_front_baton_example : seen (pop_for (push_front with_key baton 7) 7) ≡ (
  if ltb (length (entries with_key)) event_cap
      then entries with_key
      else take (length (entries with_key) - 1) (entries with_key),
  some (record baton { seq = with_key.next_seq }),
)
pop_for-push_front_baton_example = pop_for-push_front_baton with_key baton 7 7 with_key-IsRing refl
