-- ===== src/Origin/Store/Sharing.antt =====
-- pkg/origin/store.go: requests for one test that are served at the same time, while tests are
-- uploaded and removed, as interleavings of the store's steps.
use mecone.Prelude.{
  ℕ, zero, suc, ◌+◌, ◌≤◌, ◌<◌, ◌≡◌, refl, ap, inl, inr, ◌&&◌, some, List, [], ◌∷◌, ◌++◌, Str,
  Bool-cases, arith, ltb, leb, ◌==◌, if◌then◌else◌, length, get_elem?, All, All-append,
  length-append, set, length-set, get_elem?-set, get_elem?-append, get_elem?-lt, All-set,
  All-get_elem?, get_elem?_of_lt,
}
use mecone.Maps
use mecone.Protocol.{Script, LogEntry, Log}
use mecone.Origin.Store.{
  Store, Entry, new_store, max_log_entries, put, get, remove, next_seq, append_log, fresh,
}
use mecone.Origin.Store.Answers.{IsValid, put-IsValid, remove-IsValid, heap-maybe_sweep}

-- How far a handler of a test request is: it has found its entry, it has a sequence number, it has
-- logged the request.
pub data Phase : Type 0 where
  holding : (ref : ℕ) → Phase
  numbered : (ref n : ℕ) → Phase
  finished : Phase

pub record System : Type 0 where
  pub store : Store
  pub handlers : List Phase

abbrev pub initial : ℕ → System
initial ttl = record { store = new_store ttl; handlers = [] }

-- One step of an upload, of a removal, or of one handler.
pub data Step (sys : System) : System → Type 0 where
  upload :
      (id : Str) (sc : Script) (now : ℕ) → Step sys (record sys { store = put id sc now sys.store })
  drop : (id : Str) → Step sys (record sys { store = remove id sys.store })
  find :
      (id : Str) (ref : ℕ)
      → get id sys.store ≡ some ref
      → Step sys (record sys { handlers = sys.handlers ++ holding ref ∷ [] })
  number :
      (i ref : ℕ)
      → get_elem? sys.handlers i ≡ some (holding ref)
      → Step sys (record {
        store = (next_seq ref sys.store).0;
        handlers = set sys.handlers i (numbered ref (next_seq ref sys.store).1);
      })
  log :
      (i ref n : ℕ) (le : LogEntry)
      → get_elem? sys.handlers i ≡ some (numbered ref n)
      → le.seq ≡ n
      → Step sys
          (record { store = append_log ref le sys.store; handlers = set sys.handlers i finished })

pub data Reach (sys : System) : System → Type 0 where
  here : Reach sys sys
  next : {t u : System} → Reach sys t → Step t u → Reach sys u

-- How often a log holds the sequence number `n`.
abbrev pub count_seq : ℕ → Log → ℕ
count_seq n [] = 0
count_seq n (le ∷ l) = (if le.seq == n then 1 else 0) + count_seq n l

count_seq-concat :
    (n : ℕ) (l : Log) (le : LogEntry)
    → count_seq n (l ++ le ∷ []) ≡ count_seq n l + (if le.seq == n then 1 else 0)
count_seq-concat n [] le = ground arith
count_seq-concat n (x ∷ l) le = omega (arith, count_seq-concat n l le)

-- Whether a handler is about to log the number `n` on the entry at `ref`.
abbrev weight : ℕ → ℕ → Phase → ℕ
weight ref n (numbered r m) = if r == ref && m == n then 1 else 0
weight ref n _ = 0

abbrev count_numbered : ℕ → ℕ → List Phase → ℕ
count_numbered ref n [] = 0
count_numbered ref n (p ∷ ps) = weight ref n p + count_numbered ref n ps

count_numbered-set :
    (ref n : ℕ) (ps : List Phase) (i : ℕ) (p q : Phase)
    → get_elem? ps i ≡ some p
    → count_numbered ref n (set ps i q) + weight ref n p ≡ count_numbered ref n ps + weight ref n q
count_numbered-set ref n [] i p q h = absurd (cc)
count_numbered-set ref n (x ∷ ps) zero p q h = let same : x ≡ p = cc in rw same (omega arith)
count_numbered-set ref n (x ∷ ps) (suc i) p q h = omega (arith, count_numbered-set ref n ps i p q h)

count_numbered-concat :
    (ref n r : ℕ) (ps : List Phase)
    → count_numbered ref n (ps ++ holding r ∷ []) ≡ count_numbered ref n ps
count_numbered-concat ref n r [] = omega arith
count_numbered-concat ref n r (x ∷ ps) = omega (arith, count_numbered-concat ref n r ps)

-- The address that a handler uses is one of the heap's.
abbrev InHeap : ℕ → Phase → Type 0
InHeap size (holding ref) = ref < size
InHeap size (numbered ref n) = ref < size
InHeap size finished = Unit

count_numbered-fresh :
    (n size : ℕ) (ps : List Phase) → All (InHeap size) ps → count_numbered size n ps ≡ 0
count_numbered-fresh n size [] h = refl
count_numbered-fresh n size (holding r ∷ ps) h = omega (arith, count_numbered-fresh n size ps h.1)
count_numbered-fresh n size (numbered r m ∷ ps) h =
    ground (arith, count_numbered-fresh n size ps h.1)
count_numbered-fresh n size (finished ∷ ps) h = omega (arith, count_numbered-fresh n size ps h.1)

-- The numbers that an entry has given out.
abbrev issued : ℕ → ℕ → ℕ
issued seq n = if leb 1 n && leb n seq then 1 else 0

record Inv (sys : System) : Type 0 where
  valid : IsValid sys.store
  in_heap : All (InHeap (length sys.store.heap)) sys.handlers
  once :
      (ref n : ℕ) (e : Entry)
      → get_elem? sys.store.heap ref ≡ some e
      → count_seq n e.log + count_numbered ref n sys.handlers ≤ issued e.seq n
  bounded :
      (ref : ℕ) (e : Entry) → get_elem? sys.store.heap ref ≡ some e → length e.log ≤ max_log_entries

grow : (a b : ℕ) (ps : List Phase) → a ≤ b → All (InHeap a) ps → All (InHeap b) ps
grow a b [] h k = tt
grow a b (holding r ∷ ps) h k = (omega arith, grow a b ps h k.1)
grow a b (numbered r m ∷ ps) h k = (omega arith, grow a b ps h k.1)
grow a b (finished ∷ ps) h k = (tt, grow a b ps h k.1)

upload-Inv :
    (sys : System) (id : Str) (sc : Script) (now : ℕ)
    → Inv sys
    → Inv (record sys { store = put id sc now sys.store })
upload-Inv sys id sc now v =
    let heap = sys.store.heap in
    let added : (put id sc now sys.store).heap ≡ heap ++ fresh sc now ∷ [] =
      unfold put in ap (λ h. h ++ fresh sc now ∷ []) (heap-maybe_sweep sys.store now) in
    let grown : length (heap ++ fresh sc now ∷ []) ≡ length heap + 1 =
      omega (arith, length-append heap (fresh sc now ∷ [])) in
    record {
      valid = put-IsValid id sc now sys.store v.valid;
      in_heap =
          rw (added, grown)
            (grow (length heap) (length heap + 1) sys.handlers (omega arith) v.in_heap);
      once = λ ref n e h.
          let at = rw added at h in
          ground (
            arith,
            get_elem?-append heap (fresh sc now) ref,
            v.once ref n e,
            count_numbered-fresh n (length heap) sys.handlers v.in_heap,
          );
      bounded = λ ref e h.
          let at = rw added at h in
          ground (arith, get_elem?-append heap (fresh sc now) ref, v.bounded ref e);
    }

drop-Inv : (sys : System) (id : Str) → Inv sys → Inv (record sys { store = remove id sys.store })
unfolding remove
drop-Inv sys id v = record {
  valid = remove-IsValid id sys.store v.valid;
  in_heap = v.in_heap;
  once = v.once;
  bounded = v.bounded;
}

find-Inv :
    (sys : System) (id : Str) (ref : ℕ)
    → get id sys.store ≡ some ref
    → Inv sys
    → Inv (record sys { handlers = sys.handlers ++ holding ref ∷ [] })
unfolding get
find-Inv sys id ref found v =
    let size = length sys.store.heap in
    record {
      valid = v.valid;
      in_heap =
          All-append (InHeap size) sys.handlers (holding ref ∷ []) v.in_heap
            (v.valid.in_heap id ref found, tt);
      once = λ r n e h. rw count_numbered-concat (v.once r n e h);
      bounded = v.bounded;
    }

-- A write to the entry at `ref` that keeps the script leaves the map valid.
write-IsValid :
    (s : Store) (ref : ℕ) (e : Entry) → IsValid s → IsValid (record s { heap = set s.heap ref e })
write-IsValid s ref e v = record {
  unique = v.unique;
  in_heap = λ id r h. omega (arith, v.in_heap id r h, length-set s.heap ref e);
}

next_seq-eq :
    (ref : ℕ) (s : Store) (e : Entry)
    → get_elem? s.heap ref ≡ some e
    → next_seq ref s
      ≡ (record s { heap = set s.heap ref (record e { seq = e.seq + 1 }) }, e.seq + 1)
unfolding next_seq
next_seq-eq ref s e h = rw (h, next_seq)

module _ (sys : System) (i ref : ℕ) (v : Inv sys) (e : Entry)
    (at : get_elem? sys.store.heap ref ≡ some e) where
  abbrev heap : List Entry
  heap = sys.store.heap

  abbrev bumped : Entry
  bumped = record e { seq = e.seq + 1 }

  number-once :
      get_elem? sys.handlers i ≡ some (holding ref)
      → (r n : ℕ) (x : Entry) → get_elem? (set heap ref bumped) r ≡ some x
      → count_seq n x.log + count_numbered r n (set sys.handlers i (numbered ref (e.seq + 1)))
        ≤ issued x.seq n
  number-once holds r n x h = ground (
    arith,
    get_elem?-set heap ref r bumped (get_elem?-lt heap ref e at),
    count_numbered-set r n sys.handlers i (holding ref) (numbered ref (e.seq + 1)) holds,
    v.once r n x,
    v.once r n e,
  )

  number-Inv :
      get_elem? sys.handlers i ≡ some (holding ref)
      → Inv (record {
        store = record sys.store { heap = set heap ref bumped };
        handlers = set sys.handlers i (numbered ref (e.seq + 1));
      })
  number-Inv holds = record {
    valid = write-IsValid sys.store ref bumped v.valid;
    in_heap = rw length-set (
        All-set (InHeap (length heap)) sys.handlers i (numbered ref (e.seq + 1)) v.in_heap
          (get_elem?-lt heap ref e at));
    once = number-once holds;
    bounded = λ r x h. ground (
      arith,
      get_elem?-set heap ref r bumped (get_elem?-lt heap ref e at),
      v.bounded r x,
      v.bounded ref e at,
    );
  }

  module _ (le : LogEntry) (waiting : get_elem? sys.handlers i ≡ some (numbered ref le.seq)) where
    abbrev logged : Entry
    logged = record e { log = e.log ++ le ∷ [] }

    log-once :
        (r n : ℕ) (x : Entry)
        → get_elem? (set heap ref logged) r ≡ some x
        → count_seq n x.log + count_numbered r n (set sys.handlers i finished) ≤ issued x.seq n
    log-once r n x h = ground (
      arith,
      get_elem?-set heap ref r logged (get_elem?-lt heap ref e at),
      count_numbered-set r n sys.handlers i (numbered ref le.seq) finished waiting,
      count_seq-concat n e.log le,
      v.once r n x,
      v.once r n e,
    )

    full-once :
        (r n : ℕ) (x : Entry)
        → get_elem? heap r ≡ some x
        → count_seq n x.log + count_numbered r n (set sys.handlers i finished) ≤ issued x.seq n
    full-once r n x h = ground (
      arith,
      count_numbered-set r n sys.handlers i (numbered ref le.seq) finished waiting,
      v.once r n x h,
    )

    finish_InHeap : All (InHeap (length heap)) (set sys.handlers i finished)
    finish_InHeap = All-set (InHeap (length heap)) sys.handlers i finished v.in_heap tt

    log-Inv :
        Inv (record { store = append_log ref le sys.store; handlers = set sys.handlers i finished })
    unfolding append_log
    log-Inv = elim (Bool-cases (ltb (length e.log) max_log_entries)) [
      | inl room ↦
          rw (at, append_log, room)
            (record {
              valid = write-IsValid sys.store ref logged v.valid;
              in_heap = rw length-set finish_InHeap;
              once = log-once;
              bounded = λ r x h. ground (
                arith,
                get_elem?-set heap ref r logged (get_elem?-lt heap ref e at),
                length-append e.log (le ∷ []),
                v.bounded r x,
              );
            })
      | inr full ↦
          rw (at, append_log, full)
            (record {
              valid = v.valid;
              in_heap = finish_InHeap;
              once = full-once;
              bounded = v.bounded;
            })
    ]

Step-Inv : {sys after : System} → Step sys after → Inv sys → Inv after
Step-Inv {sys} (upload id sc now) v = upload-Inv sys id sc now v
Step-Inv {sys} (drop id) v = drop-Inv sys id v
Step-Inv {sys} (find id ref found) v = find-Inv sys id ref found v
Step-Inv {sys} (number i ref holds) v =
    let used = All-get_elem? (InHeap (length sys.store.heap)) sys.handlers i _ holds v.in_heap in
    let (e, at) = get_elem?_of_lt sys.store.heap ref used in
    rw (next_seq-eq ref sys.store e at) (number-Inv sys i ref v e at holds)
Step-Inv {sys} (log i ref n le waiting same) v =
    let used = All-get_elem? (InHeap (length sys.store.heap)) sys.handlers i _ waiting v.in_heap in
    let (e, at) = get_elem?_of_lt sys.store.heap ref used in
    log-Inv sys i ref v e at le (rw same waiting)

Reach-Inv : {sys after : System} → Inv sys → Reach sys after → Inv after
Reach-Inv v here = v
Reach-Inv v (next r s) = Step-Inv s (Reach-Inv v r)

initial-Inv : (ttl : ℕ) → Inv (initial ttl)
initial-Inv ttl = record {
  valid = record { unique = tt; in_heap = λ id ref h. absurd (unfold Maps.lookup in cc) };
  in_heap = tt;
  once = λ ref n e h. absurd (cc);
  bounded = λ ref e h. absurd (cc);
}

-- Whatever uploads, removals and test requests run at the same time, and in whatever order their
-- steps fall: in the log of every entry, also of one that the map no longer names, each sequence
-- number stands at most once and is one that the entry gave out, from 1 on, and the log holds no
-- more than its limit.
pub Reach-log :
    (ttl : ℕ) (sys : System) (ref : ℕ) (e : Entry)
    → Reach (initial ttl) sys
    → get_elem? sys.store.heap ref ≡ some e
    → (length e.log ≤ max_log_entries)
      × ((n : ℕ) → count_seq n e.log ≤ 1)
      × ((n : ℕ) → 0 < count_seq n e.log → (1 ≤ n) × (n ≤ e.seq))
Reach-log ttl sys ref e r at =
    let v = Reach-Inv (initial-Inv ttl) r in
    (
      v.bounded ref e at,
      λ n. ground (arith, v.once ref n e at),
      λ n h. ground (arith, v.once ref n e at),
    )
