-- ===== src/Context/Replies.antt =====
-- context.py, `CommandTracker.observe`: which query a reply is matched with.
use insteonrf.Common.{
  ◌∙◌, ◌∙◌, ℕ, ◌+◌, ◌≤◌, ◌<◌, ◌≡◌, ◌≢◌, Option, none, some, List, [], ◌∷◌, Bool, true, false,
  if◌then◌else◌, list_eq, arith, refl, inl, inr, Bool-cases, Option-cases, All,
}
use insteonrf.Common.Dict.{
  put-IsDict, purge-IsDict, Dict, get, put, purge, get-put, get-put_self, get-purge_kept,
  get-purge_dropped, IsDict,
}
use insteonrf.Packet.Address.{Address}
use insteonrf.Packet.Fields.{Packet, ack, extended, cmd1, to_addr, from_addr}
use insteonrf.Context.{
  CommandTracker, query_key, expired, expire, annotate_reply, record_query, arrival, observe,
  observe_all,
}

-- the packet asks for `c`, from `a` to `b`
pub record IsQuery (p : Packet) (a b : Address) (c : ℕ) : Type 0 where
  pub kind : ack p ≡ false
  pub command : cmd1 p ≡ some c
  pub from : from_addr p ≡ some a
  pub to : to_addr p ≡ some b

-- the packet answers `c`, from `b` to `a`
pub record IsReply (p : Packet) (a b : Address) (c : ℕ) : Type 0 where
  pub kind : ack p ≡ true
  pub command : cmd1 p ≡ some c
  pub from : from_addr p ≡ some b
  pub to : to_addr p ≡ some a

-- the key that a query is remembered under
abbrev pub asked : Packet → Option (List ℕ)
asked p = if ack p then none else elim (cmd1 p) [
  | none ↦ none
  | some c ↦ elim (to_addr p) [
    | none ↦ none
    | some b ↦ elim (from_addr p) [ none ↦ none | some a ↦ some (query_key a b c) ]
  ]
]

observe_query :
    (t : CommandTracker) (p : Packet) (clock : ℕ) (a b : Address) (c : ℕ)
    → IsQuery p a b c
    → get (query_key a b c) (observe t p clock).0.queries ≡ some (arrival p clock, extended p)
unfolding observe record_query
observe_query t p clock a b c q = ground (
  arith,
  q.kind,
  q.command,
  q.from,
  q.to,
  get-put_self (query_key a b c) (arrival p clock, extended p) (expire t (arrival p clock)).queries,
)

observe_window :
    (t : CommandTracker) (p : Packet) (clock : ℕ) → (observe t p clock).0.window ≡ t.window
unfolding observe record_query annotate_reply expire
observe_window t p clock = ground arith

kept :
    (t : CommandTracker) (now : ℕ) (k : List ℕ) (entry : ℕ × Bool)
    → get k t.queries ≡ some entry
    → now ≤ entry.0 + t.window
    → get k (expire t now).queries ≡ some entry
unfolding expire
kept t now k entry h young =
    get-purge_kept (expired t.window now) k t.queries entry h (ground (arith, young))

record_query_other :
    (t : CommandTracker) (p : Packet) (to : Address) (c now : ℕ) (k : List ℕ)
    → ack p ≡ false
    → cmd1 p ≡ some c
    → to_addr p ≡ some to
    → asked p ≢ some k
    → get k (record_query t p to c now).queries ≡ get k t.queries
unfolding record_query
record_query_other t p to c now k kind e f other = elim (Option-cases (from_addr p)) [
  | inl n ↦ ground (arith, n)
  | inr s ↦
      let different : query_key s.0 to c ≢ k =
        λ same. other (ground (arith, kind, e, f, s.1, same)) in
      ground (
        arith,
        s.1,
        different,
        list_eq.beq_iff (query_key s.0 to c) k,
        get-put (query_key s.0 to c) k (now, extended p) t.queries,
      )
]

annotate_reply_queries :
    (t : CommandTracker) (p : Packet) (to : Address) (c : ℕ)
    → (annotate_reply t p to c).0.queries ≡ t.queries
unfolding annotate_reply
annotate_reply_queries t p to c = ground arith

-- an entry that is not old stays, unless the packet is a query with its key
observe_keeps :
    (t : CommandTracker) (p : Packet) (clock : ℕ) (k : List ℕ) (entry : ℕ × Bool)
    → get k t.queries ≡ some entry
    → arrival p clock ≤ entry.0 + t.window
    → asked p ≢ some k
    → get k (observe t p clock).0.queries ≡ some entry
unfolding observe
observe_keeps t p clock k entry h young other =
    let now = arrival p clock in
    let here = kept t now k entry h young in
    elim (Option-cases (cmd1 p)) [
      | inl e ↦ ground (arith, e, here)
      | inr e ↦ elim (Option-cases (to_addr p)) [
        | inl f ↦ ground (arith, e.1, f, here)
        | inr f ↦ elim (Bool-cases (ack p)) [
          | inl a ↦
              ground (arith, e.1, f.1, a, here, annotate_reply_queries (expire t now) p f.0 e.0)
          | inr a ↦ ground (
            arith,
            e.1,
            f.1,
            a,
            here,
            record_query_other (expire t now) p f.0 e.0 now k a e.1 f.1 other,
          )
        ]
      ]
    ]

observe_reply :
    (t : CommandTracker) (p : Packet) (clock : ℕ) (a b : Address) (c : ℕ) (entry : ℕ × Bool)
    → IsReply p a b c
    → get (query_key a b c) t.queries ≡ some entry
    → arrival p clock ≤ entry.0 + t.window
    → (observe t p clock).1.ack_of_extended ≡ some (entry.1)
unfolding observe annotate_reply expire
observe_reply t p clock a b c entry r h young = ground (
  arith,
  r.kind,
  r.command,
  r.from,
  r.to,
  get-purge_kept (expired t.window (arrival p clock)) (query_key a b c) t.queries entry h
      (ground arith),
)

observe_all_keeps :
    (packets : List (Packet × ℕ)) (t : CommandTracker) (k : List ℕ) (entry : ℕ × Bool)
    → get k t.queries ≡ some entry
    → All (λ x. (arrival x.0 x.1 ≤ entry.0 + t.window) × (asked x.0 ≢ some k)) packets
    → (get k (observe_all packets t).0.queries ≡ some entry)
      × ((observe_all packets t).0.window ≡ t.window)
unfolding observe_all
observe_all_keeps [] t k entry h others = (h, refl)
observe_all_keeps ((p, clock) ∷ packets) t k entry h others =
    let here = observe_keeps t p clock k entry h others.0.0 others.0.1 in
    let w = observe_window t p clock in
    let rest = observe_all_keeps packets (observe t p clock).0 k entry here (rw w others.1) in
    (rest.0, rest.1 ∙ w)

-- A reply that arrives within the window after a query, with the addresses turned round and the
-- same command, is marked with the kind of that query (extended or not), whatever packets came
-- between, as long as these came within the window too and none repeated the query's key.
pub reply-resolved :
    (t : CommandTracker) (q r : Packet) (asked_at answered_at : ℕ) (between : List (Packet × ℕ))
    (a b : Address) (c : ℕ)
    → IsQuery q a b c
    → IsReply r a b c
    → All
        (λ x.
          (arrival x.0 x.1 ≤ arrival q asked_at + t.window) × (asked x.0 ≢ some (query_key a b c)))
        between
    → arrival r answered_at ≤ arrival q asked_at + t.window
    → (observe (observe_all between (observe t q asked_at).0).0 r answered_at).1.ack_of_extended
      ≡ some (extended q)
reply-resolved t q r asked_at answered_at between a b c query reply others in_time =
    let w = observe_window t q asked_at in
    let entry : ℕ × Bool = (arrival q asked_at, extended q) in
    let t1 = (observe t q asked_at).0 in
    let keeps =
      observe_all_keeps between t1 (query_key a b c) entry (observe_query t q asked_at a b c query)
        (rw w others) in
    observe_reply (observe_all between t1).0 r answered_at a b c entry reply keeps.0
      (rw (keeps.1 ∙ w) in_time)

-- A reply whose query is older than the window is returned as it came, and counts as unresolved.
pub observe_late :
    (t : CommandTracker) (r : Packet) (clock : ℕ) (a b : Address) (c : ℕ) (entry : ℕ × Bool)
    → IsDict t.queries
    → IsReply r a b c
    → get (query_key a b c) t.queries ≡ some entry
    → entry.0 + t.window < arrival r clock
    → ((observe t r clock).1 ≡ r) × ((observe t r clock).0.unresolved ≡ t.unresolved + 1)
unfolding observe annotate_reply expire
observe_late t r clock a b c entry d reply h late =
    let gone =
      get-purge_dropped (expired t.window (arrival r clock)) (query_key a b c) t.queries entry d h
        (ground (arith, late)) in
    (
      ground (arith, reply.kind, reply.command, reply.from, reply.to, gone),
      ground (arith, reply.kind, reply.command, reply.from, reply.to, gone),
    )

-- what an observation makes of the queries: it drops the old ones, and may put in one
data Queried (t : CommandTracker) (now : ℕ) (queries : Dict (List ℕ) (ℕ × Bool)) : Type 0 where
  same : queries ≡ (expire t now).queries → Queried t now queries
  added :
      (k : List ℕ) (entry : ℕ × Bool)
      → queries ≡ put k entry (expire t now).queries
      → Queried t now queries

observe-Queried :
    (t : CommandTracker) (p : Packet) (clock : ℕ)
    → Queried t (arrival p clock) (observe t p clock).0.queries
unfolding observe record_query
observe-Queried t p clock =
    let now = arrival p clock in
    elim (Option-cases (cmd1 p)) [
      | inl e ↦ same (ground (arith, e))
      | inr e ↦ elim (Option-cases (to_addr p)) [
        | inl f ↦ same (ground (arith, e.1, f))
        | inr f ↦ elim (Bool-cases (ack p)) [
          | inl a ↦
              same (ground (arith, e.1, f.1, a, annotate_reply_queries (expire t now) p f.0 e.0))
          | inr a ↦ elim (Option-cases (from_addr p)) [
            | inl g ↦ same (ground (arith, e.1, f.1, a, g))
            | inr g ↦
                added (query_key g.0 f.0 e.0) (now, extended p) (ground (arith, e.1, f.1, a, g.1))
          ]
        ]
      ]
    ]

Queried-IsDict :
    (t : CommandTracker) (now : ℕ) (queries : Dict (List ℕ) (ℕ × Bool))
    → IsDict t.queries
    → Queried t now queries
    → IsDict queries
unfolding expire
Queried-IsDict t now queries d (same e) = rw e (purge-IsDict (expired t.window now) t.queries d)
Queried-IsDict t now queries d (added k entry e) = rw e (
    put-IsDict k entry (purge (expired t.window now) t.queries)
      (purge-IsDict (expired t.window now) t.queries d))

-- The keys of the remembered queries stay distinct, whatever packet is observed.
pub observe-IsDict :
    (t : CommandTracker) (p : Packet) (clock : ℕ)
    → IsDict t.queries
    → IsDict (observe t p clock).0.queries
observe-IsDict t p clock d =
    Queried-IsDict t (arrival p clock) (observe t p clock).0.queries d (observe-Queried t p clock)
