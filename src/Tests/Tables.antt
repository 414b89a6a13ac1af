-- ===== src/Tests/Tables.antt =====
-- The theorems on the hash table and the list of infra/infra_ds.c, and on the multiplexer of
-- infra/infra_mux_epoll.c, at concrete inputs.
use ai_ppdb.Base.{
  ◌||◌, ◌&&◌, inl, inr, Bool-cases, Option, ℕ, ◌≡◌, refl, ◌≢◌, true, false, List, [], ◌∷◌, none,
  some, arith, bytes_eq, ◌==◌, if◌then◌else◌,
}
use ai_ppdb.Error.{ok}
use ai_ppdb.Base.Int.{pos}
use ai_ppdb.Mux.Events.{
  EventSet, EpollEvent, EpollCalls, infra_mux_epoll_add, infra_mux_epoll_wait, ready,
}
use ai_ppdb.Mux.Delivery.{AddLaw, OwnWords, Delivered, infra_mux_epoll_wait-Delivered}
use ai_ppdb.Tests.Machine.{Desk, machine, machine-IsSystem, empty_desk}
use ai_ppdb.Hash.{
  Table, find_entry, hash_string, index_of, infra_hash_create, put, put_new, remove, get,
  infra_hash_destroy,
}
use ai_ppdb.Hash.Laws.{IsValid, get-put, get-remove, infra_hash_create-empty}
use ai_ppdb.Hash.Blocks.{owns, infra_hash_destroy-live}
use ai_ppdb.Linked.{Store, LinkedList, link_last, unlink, infra_list_destroy}
use ai_ppdb.Linked.Chain.{Holds}
use ai_ppdb.Linked.Append.{link_last-Holds}
use ai_ppdb.Linked.Remove.{unlink-Holds}
use ai_ppdb.Linked.Destroy.{is_node, infra_list_destroy-live}
use ai_ppdb.Mux.{
  MuxConfig, Mux, finish_mux, open_mux, infra_mux_epoll_create, infra_mux_create,
  infra_mux_epoll_destroy,
}
use ai_ppdb.Mux.Blocks.{SameHeld, infra_mux_create-error}
use ai_ppdb.Mux.RoundTrip.{create-destroy}

-- A table of four buckets, and the desk after it was made.
abbrev table : Table
table = record {
  addr = 1;
  buckets_addr = 2;
  buckets = [] ∷ [] ∷ [] ∷ [] ∷ [];
  size = 0;
  capacity = 4;
}

abbrev table_desk : Desk
table_desk = (infra_hash_create machine true 4 empty_desk).2

table_made : (infra_hash_create machine true 4 empty_desk).1 ≡ some table
unfolding infra_hash_create
table_made = refl

table-IsValid : IsValid table
table-IsValid = (infra_hash_create-empty machine true 4 empty_desk table table_made).0

-- The key "ab".
abbrev key : List ℕ
key = 97 ∷ 98 ∷ []

abbrev table_one : Table
table_one = (put machine table key (some 7) table_desk).1

put_ok : (put machine table key (some 7) table_desk).0 ≡ ok
unfolding put put_new infra_hash_create find_entry hash_string index_of
put_ok = refl

get-put_example : get table_one key ≡ (if bytes_eq key key then some 7 else get table key)
get-put_example = get-put machine table table-IsValid key (some 7) table_desk key put_ok

get-remove_example :
    get (remove machine table key table_desk).1 key
    ≡ (if bytes_eq key key then none else get table key)
get-remove_example = get-remove machine table table-IsValid key table_desk key

-- A desk whose next block is taken, so that nothing more can be allocated.
abbrev full_desk : Desk
full_desk = record { next = 1; held = λ p. true; files = λ d. false }

put_refused : (put machine table key (some 7) full_desk).0 ≢ ok
unfolding put put_new find_entry hash_string
put_refused e = ground arith

create_refused : (infra_hash_create machine true 1000 empty_desk).0 ≢ ok
unfolding infra_hash_create
create_refused e = ground arith

infra_hash_destroy-live_example :
    machine.live (infra_hash_destroy machine (some table) table_desk) 2
    ≡ (if owns table 2 then false else machine.live table_desk 2)
infra_hash_destroy-live_example =
    infra_hash_destroy-live machine machine-IsSystem table table_desk 2

-- A list of the nodes 10 and 20.
abbrev store : Store
store a =
    if a == 10
    then record { next = some 20; prev = none; value = some 1 }
    else record { next = none; prev = some 10; value = some 2 }

abbrev pair : LinkedList
pair = record { addr = 5; head = some 10; tail = some 20; size = 2 }

pair-Holds : Holds pair store ((10, some 1) ∷ (20, some 2) ∷ [])
pair-Holds = record {
  linked = (refl, refl, refl, (refl, refl, refl, (refl, refl)));
  distinct = ((omega arith, tt), (tt, tt));
  counted = refl;
}

link_last-Holds_example :
    Holds
      (link_last 30 none pair store).0
      (link_last 30 none pair store).1
      ((10, some 1) ∷ (20, some 2) ∷ (30, none) ∷ [])
link_last-Holds_example =
    link_last-Holds pair store ((10, some 1) ∷ (20, some 2) ∷ []) 30 none pair-Holds
      (omega arith, (omega arith, tt)) (omega arith)

unlink-Holds_example : Holds (unlink 10 pair store).0 (unlink 10 pair store).1 ((20, some 2) ∷ [])
unlink-Holds_example =
    unlink-Holds pair store [] 10 (some 1) ((20, some 2) ∷ []) pair-Holds (omega arith)

infra_list_destroy-live_example :
    (s' : Desk) × (infra_list_destroy machine 2 (some pair) store empty_desk ≡ some s')
    × ((q : ℕ)
        → machine.live s' q ≡ (
            if q == 5 || is_node ((10, some 1) ∷ (20, some 2) ∷ []) q
            then false
            else machine.live empty_desk q))
infra_list_destroy-live_example =
    infra_list_destroy-live machine machine-IsSystem 2 pair store ((10, some 1) ∷ (20, some 2) ∷ [])
      empty_desk pair-Holds (omega arith)

abbrev mux_config : ℕ → MuxConfig
mux_config n = record { max_events = n; edge_trigger = false }

mux_refused : (infra_mux_create machine (some (mux_config 1000)) true empty_desk).0 ≢ ok
unfolding infra_mux_create infra_mux_epoll_create open_mux finish_mux
mux_refused e = ground arith

infra_mux_create-error_example :
    SameHeld machine empty_desk
      (infra_mux_create machine (some (mux_config 1000)) true empty_desk).2
infra_mux_create-error_example =
    infra_mux_create-error machine machine-IsSystem (some (mux_config 1000)) true empty_desk
      mux_refused

abbrev mux_made : Mux
mux_made = record {
  addr = 1;
  impl_addr = 2;
  events = 4;
  epoll_fd = 3;
  edge_trigger = false;
  max_events = 8;
}

mux_ok : (infra_mux_create machine (some (mux_config 8)) true empty_desk).1 ≡ some mux_made
unfolding infra_mux_create infra_mux_epoll_create open_mux finish_mux
mux_ok = refl

create-destroy_example :
    SameHeld machine empty_desk
      (infra_mux_epoll_destroy machine
        (some mux_made)
        (infra_mux_create machine (some (mux_config 8)) true empty_desk).2).1
create-destroy_example =
    create-destroy machine machine-IsSystem (some (mux_config 8)) true empty_desk mux_made mux_ok

-- Descriptor 5 can be added, and is ready for reading at once.
abbrev kept : Desk → ℕ → ℕ → Option ℕ
kept s ep fd = if fd == 5 then some 5 else none

abbrev epoll : EpollCalls machine
epoll = record {
  ctl_add = λ e d v s. (d == 5 && v.word == 5, s);
  ctl_modify = λ e d v s. (true, s);
  ctl_remove = λ e d s. (true, s);
  wait = λ e n t s. (
    ready (record { input = true; output = false; error = false; edge = false; word = 5 } ∷ []),
    s,
  );
}

epoll-AddLaw :
    (ep fd : ℕ) (ev : EpollEvent) (s : Desk)
    → AddLaw machine kept (λ t. 0) ep fd ev s (epoll.ctl_add ep fd ev s)
epoll-AddLaw ep fd ev s = elim (Bool-cases (fd == 5 && ev.word == 5)) [
  | inl e ↦ rw e (λ q. ground (arith, e))
  | inr e ↦ rw e (λ q. refl)
]

kept-OwnWords : OwnWords machine kept (λ t. 0) 4 empty_desk
kept-OwnWords fd w e = ground (arith, e)

abbrev small_mux : Mux
small_mux = record {
  addr = 1;
  impl_addr = 2;
  events = 3;
  epoll_fd = 4;
  edge_trigger = false;
  max_events = 8;
}

abbrev reading : EventSet
reading = record { read = true; write = false; error = false }

-- The add is given the user data 77.
abbrev added_desk : Desk
added_desk = (infra_mux_epoll_add machine epoll (some small_mux) (some 5) reading 77 empty_desk).1

infra_mux_epoll_wait-Delivered_example :
    Delivered machine kept
      (λ s. 0)
      epoll
      epoll-AddLaw
      (λ e n t s. ((5, refl), tt))
      4
      2
      (pos 0)
      added_desk
      (infra_mux_epoll_wait machine epoll 1 (some small_mux) true 2 (pos 0) added_desk)
infra_mux_epoll_wait-Delivered_example =
    infra_mux_epoll_wait-Delivered machine kept (λ s. 0) epoll epoll-AddLaw
      (λ e n t s. ((5, refl), tt)) 1 small_mux 5 reading 77 2 (pos 0) empty_desk kept-OwnWords
      (omega arith) (omega arith) (omega arith) (omega arith)
