-- ===== src/Linked.antt =====
-- The doubly linked list of infra/infra_ds.c (in ppdb/src/internal): nodes in a store, which the
-- operations change in place. A `void *` is an address or NULL.
pub mod Chain
pub mod Append
pub mod Remove
pub mod Destroy
use ai_ppdb.Base.{ℕ, zero, suc, ◌==◌, Bool, true, false, Option, none, some, if◌then◌else◌, is_null}
use ai_ppdb.Base.Words.{add64, sub64}
use ai_ppdb.Error.{InfraError, ok, invalid_param, no_memory}
use ai_ppdb.System.{System}

-- `infra_list_node_t`
pub record Cell : Type 0 where
  pub next : Option ℕ
  pub prev : Option ℕ
  pub value : Option ℕ

-- The nodes by their addresses.
abbrev pub Store : Type 0
Store = ℕ → Cell

abbrev pub store_cell : ℕ → Cell → Store → Store
store_cell a c h p = if p == a then c else h p

-- `node->next = v` and `node->prev = v`, where `node` may be NULL and then is left alone.
abbrev pub set_next : Option ℕ → Option ℕ → Store → Store
set_next none v h = h
set_next (some a) v h = store_cell a (let c = h a in record c { next = v }) h

abbrev pub set_prev : Option ℕ → Option ℕ → Store → Store
set_prev none v h = h
set_prev (some a) v h = store_cell a (let c = h a in record c { prev = v }) h

-- `infra_list_t`, with its address.
pub record LinkedList : Type 0 where
  pub addr : ℕ
  pub head : Option ℕ
  pub tail : Option ℕ
  pub size : ℕ

-- The end of `infra_list_append`, for the node at `a`.
unfoldable pub link_last : ℕ → Option ℕ → LinkedList → Store → LinkedList × Store
link_last a value l h =
    let cell : Cell = record { next = none; prev = l.tail; value = value } in
    (
      record l {
        head = if is_null l.head then some a else l.head;
        tail = some a;
        size = add64 l.size 1;
      },
      set_next l.tail (some a) (store_cell a cell h),
    )

-- `infra_list_remove` before it frees the node.
unfoldable pub unlink : ℕ → LinkedList → Store → LinkedList × Store
unlink n l h =
    let node = h n in
    (
      record l {
        head = if is_null node.prev then node.next else l.head;
        tail = if is_null node.next then node.prev else l.tail;
        size = sub64 l.size 1;
      },
      set_prev node.next node.prev (set_next node.prev node.next h),
    )

module _ (y : System) where
  open y use {State, malloc, free}

  -- `list == NULL` is `given ≡ false`.
  unfoldable pub infra_list_create : Bool → State → InfraError × Option LinkedList × State
  infra_list_create false s = (invalid_param, none, s)
  infra_list_create true s =
      let (block, s') = malloc 24 s in
      elim block [
        | none ↦ (no_memory, none, s')
        | some a ↦ (ok, some (record { addr = a; head = none; tail = none; size = 0 }), s')
      ]

  unfoldable pub infra_list_append :
      Option LinkedList → Option ℕ → Store → State → InfraError × Option LinkedList × Store × State
  infra_list_append none value h s = (invalid_param, none, h, s)
  infra_list_append (some l) value h s =
      let (block, s') = malloc 24 s in
      elim block [
        | none ↦ (no_memory, some l, h, s')
        | some a ↦ let (l', h') = link_last a value l h in (ok, some l', h', s')
      ]

  unfoldable pub infra_list_remove :
      Option LinkedList → Option ℕ → Store → State → InfraError × Option LinkedList × Store × State
  infra_list_remove none _ h s = (invalid_param, none, h, s)
  infra_list_remove (some l) none h s = (invalid_param, some l, h, s)
  infra_list_remove (some l) (some n) h s =
      let (l', h') = unlink n l h in (ok, some l', h', free n s)

unfoldable pub infra_list_head : Option LinkedList → Option ℕ
infra_list_head none = none
infra_list_head (some l) = l.head

unfoldable pub infra_list_node_next : Store → Option ℕ → Option ℕ
infra_list_node_next h none = none
infra_list_node_next h (some a) = let c = h a in c.next

unfoldable pub infra_list_node_value : Store → Option ℕ → Option ℕ
infra_list_node_value h none = none
infra_list_node_value h (some a) = let c = h a in c.value

module _ (y : System) where
  open y use {State, free}

  -- The loop of `infra_list_destroy` for at most `n` nodes; `none` means that they were not enough.
  unfoldable pub free_nodes : ℕ → Store → Option ℕ → State → Option State
  free_nodes n h none s = some s
  free_nodes zero h (some a) s = none
  free_nodes (suc n) h (some a) s = let c = h a in free_nodes n h c.next (free a s)

  unfoldable pub infra_list_destroy : ℕ → Option LinkedList → Store → State → Option State
  infra_list_destroy n none h s = some s
  infra_list_destroy n (some l) h s = elim (free_nodes n h l.head s) [
    | none ↦ none
    | some s' ↦ some (free l.addr s')
  ]
