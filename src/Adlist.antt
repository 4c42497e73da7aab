-- ===== src/Adlist.antt =====
-- redis/src/adlist.c: doubly linked lists. The nodes stand in a heap, a null pointer is `none`, and
-- the address of a new node, which `zmalloc` gives, is an argument. `len` is an unsigned long, of 32
-- bits on Windows. The callbacks `dup`, `free` and `match` are arguments where they are called.
pub mod Tests
use my_node_redis.Prelude.{
  ℕ, zero, suc, ◌+◌, ◌-◌, ◌%◌, ◌^◌, leb, ◌==◌, if◌then◌else◌, Bool, true, false, Option, none, some,
}
use my_node_redis.Prelude.Int.{ℤ, pos, negsuc}

-- `listNode`
pub record Node {ℓ} (A : Type ℓ) : Type ℓ where
  pub prev : Option ℕ
  pub next : Option ℕ
  pub value : A

abbrev pub Heap {ℓ} : Type ℓ → Type ℓ
Heap A = ℕ → Option (Node A)

-- `list`
pub record Adlist {ℓ} (A : Type ℓ) : Type ℓ where
  pub heap : Heap A
  pub head : Option ℕ
  pub tail : Option ℕ
  pub len : ℕ

-- `listIter`; `from_head` is AL_START_HEAD
pub record Iter : Type 0 where
  pub next : Option ℕ
  pub from_head : Bool

-- two pointers
abbrev pub same : Option ℕ → Option ℕ → Bool
same none none = true
same none (some b) = false
same (some a) none = false
same (some a) (some b) = a == b

-- what replaces an end of the list: `q` where the pointer is null, and else the old end
abbrev pub or_end : Option ℕ → Option ℕ → Option ℕ → Option ℕ
or_end none q d = q
or_end (some a) q d = d

module _ {ℓ} {A : Type ℓ} where
  unfoldable pub put : Heap A → ℕ → Option (Node A) → Heap A
  put h a n i = if i == a then n else h i

  set_node_next : Option (Node A) → Option ℕ → Option (Node A)
  set_node_next none p = none
  set_node_next (some n) p = some (record n { next = p })

  set_node_prev : Option (Node A) → Option ℕ → Option (Node A)
  set_node_prev none p = none
  set_node_prev (some n) p = some (record n { prev = p })

  -- `if (node) node->next = p`
  unfoldable pub set_next : Heap A → Option ℕ → Option ℕ → Heap A
  unfolding put set_node_next
  set_next h none p = h
  set_next h (some a) p = put h a (set_node_next (h a) p)

  -- `if (node) node->prev = p`
  unfoldable pub set_prev : Heap A → Option ℕ → Option ℕ → Heap A
  unfolding put set_node_prev
  set_prev h none p = h
  set_prev h (some a) p = put h a (set_node_prev (h a) p)

  node_next : Option (Node A) → Option ℕ
  node_next none = none
  node_next (some n) = n.next

  node_prev : Option (Node A) → Option ℕ
  node_prev none = none
  node_prev (some n) = n.prev

  -- `node->next` and `node->prev`
  unfoldable pub next_of : Heap A → ℕ → Option ℕ
  unfolding node_next
  next_of h a = node_next (h a)

  unfoldable pub prev_of : Heap A → ℕ → Option ℕ
  unfolding node_prev
  prev_of h a = node_prev (h a)

  -- `listCreate`
  unfoldable pub create : Adlist A
  create = record { heap = λ i. none; head = none; tail = none; len = 0 }

  -- `listAddNodeHead`; the new node stands at `a`
  unfoldable pub add_node_head : Adlist A → ℕ → A → Adlist A
  unfolding put set_prev
  add_node_head l a v =
      if l.len == 0
      then record {
        heap = put l.heap a (some (record { prev = none; next = none; value = v }));
        head = some a;
        tail = some a;
        len = (l.len + 1) % 2 ^ 32;
      }
      else record l {
        heap =
            set_prev (put l.heap a (some (record { prev = none; next = l.head; value = v }))) l.head
              (some a);
        head = some a;
        len = (l.len + 1) % 2 ^ 32;
      }

  -- `listAddNodeTail`
  unfoldable pub add_node_tail : Adlist A → ℕ → A → Adlist A
  unfolding put set_next
  add_node_tail l a v =
      if l.len == 0
      then record {
        heap = put l.heap a (some (record { prev = none; next = none; value = v }));
        head = some a;
        tail = some a;
        len = (l.len + 1) % 2 ^ 32;
      }
      else record l {
        heap =
            set_next (put l.heap a (some (record { prev = l.tail; next = none; value = v }))) l.tail
              (some a);
        tail = some a;
        len = (l.len + 1) % 2 ^ 32;
      }

  -- the end of `listInsertNode`: the neighbours of the new node
  linked : Heap A → ℕ → Option ℕ → Option ℕ → A → Heap A
  unfolding put set_next set_prev
  linked h a p n v =
      set_prev (set_next (put h a (some (record { prev = p; next = n; value = v }))) p (some a)) n
        (some a)

  -- `listInsertNode`; the new node stands at `a`, behind or in front of `old`
  unfoldable pub insert_node : Adlist A → ℕ → ℕ → A → Bool → Adlist A
  unfolding linked next_of prev_of
  insert_node l old a v true = record l {
    heap = linked l.heap a (some old) (next_of l.heap old) v;
    tail = if same l.tail (some old) then some a else l.tail;
    len = (l.len + 1) % 2 ^ 32;
  }
  insert_node l old a v false = record l {
    heap = linked l.heap a (prev_of l.heap old) (some old) v;
    head = if same l.head (some old) then some a else l.head;
    len = (l.len + 1) % 2 ^ 32;
  }

  -- `listDelNode`
  unfoldable pub del_node : Adlist A → ℕ → Adlist A
  unfolding set_next set_prev put next_of prev_of
  del_node l a =
      let p : Option ℕ = prev_of l.heap a in
      let n : Option ℕ = next_of l.heap a in
      record {
        heap = put (set_prev (set_next l.heap p n) n p) a none;
        head = or_end p n l.head;
        tail = or_end n p l.tail;
        len = (l.len + 2 ^ 32 - 1) % 2 ^ 32;
      }

  -- `listGetIterator`, and by it `listRewind` and `listRewindTail`
  unfoldable pub get_iterator : Adlist A → Bool → Iter
  get_iterator l from_head = record {
    next = if from_head then l.head else l.tail;
    from_head = from_head;
  }

  step : Heap A → Bool → Option ℕ → Option ℕ
  unfolding next_of prev_of
  step h from_head none = none
  step h from_head (some a) = if from_head then next_of h a else prev_of h a

  -- `listNext`: the node, and the iterator after it
  unfoldable pub list_next : Heap A → Iter → Option ℕ × Iter
  unfolding step
  list_next h i = (i.next, record i { next = step h i.from_head i.next })

  -- `while(index-- && n) n = n->next`, or `n->prev`
  unfoldable pub walk : Heap A → Bool → ℕ → Option ℕ → Option ℕ
  unfolding step
  walk h from_head zero n = n
  walk h from_head (suc index) n = walk h from_head index (step h from_head n)

  -- `listIndex`
  unfoldable pub list_index : Adlist A → ℤ → Option ℕ
  list_index l (negsuc k) = walk l.heap false k l.tail
  list_index l (pos k) = walk l.heap true k l.head

  matches : (A → Bool) → Option (Node A) → Bool
  matches found none = false
  matches found (some n) = found n.value

  -- `listSearchKey`, with the comparison with the key; the fuel counts the nodes
  unfoldable pub search_loop : ℕ → (A → Bool) → Heap A → Iter → Option ℕ
  unfolding matches list_next
  search_loop zero found h i = none
  search_loop (suc n) found h i = elim i.next [
    | none ↦ none
    | some a ↦ elim (matches found (h a)) [
      | true ↦ some a
      | false ↦ search_loop n found h (list_next h i).1
    ]
  ]

  unfoldable pub search_key : ℕ → (A → Bool) → Adlist A → Option ℕ
  unfolding get_iterator
  search_key n found l = search_loop n found l.heap (get_iterator l true)

  rotate_at : Adlist A → Option ℕ → Adlist A
  unfolding set_next set_prev put prev_of
  rotate_at l none = l
  rotate_at l (some t) =
      let p : Option ℕ = prev_of l.heap t in
      let cut = set_next l.heap p none in
      let back = set_prev cut l.head (some t) in
      record l {
        heap = set_next (set_prev back (some t) none) (some t) l.head;
        head = some t;
        tail = p;
      }

  -- `listRotate`
  unfoldable pub rotate : Adlist A → Adlist A
  unfolding rotate_at
  rotate l = if leb l.len 1 then l else rotate_at l l.tail
