-- ===== src/Job/Subscribe/Laws.antt =====
-- Subscribing is all or nothing, and unsubscribing undoes it.
use mathlib.Core.List.{append-nil, append_assoc}
use dappctrl.Base.{
  subst, Option-cases, ◌≡◌, refl, sym, inl, inr, Bool, true, false, ◌||◌, Option, none, some, List,
  [], ◌∷◌, ◌++◌, ◌==◌, arith, if◌then◌else◌, any, ◌&&◌,
}
use dappctrl.Data.{Error}
use dappctrl.Job.Subscribe.{
  Key, SubEntry, Subs, entries, has_id, subscribe, remove_id, unsubscribe, rollback, subscribe_loop,
  subscribe_all, unsubscribe_loop, unsubscribe_all,
}

has_id-append : (e : SubEntry) (l : List SubEntry) → has_id e.sub_id (l ++ e ∷ []) ≡ true
unfolding any
has_id-append e [] = ground arith
has_id-append e (x ∷ l) = ground (arith, has_id-append e l)

remove_id-append :
    (e : SubEntry) (l : List SubEntry)
    → has_id e.sub_id l ≡ false
    → remove_id e.sub_id (l ++ e ∷ []) ≡ l
unfolding any remove_id
remove_id-append e [] h = ground arith
remove_id-append e (x ∷ l) h = ground (arith, remove_id-append e l)

-- Whether a key is among those given.
abbrev pub has_key : Key → List Key → Bool
has_key j ks = any (λ k. k == j) ks

-- `m` is `m0` with `e` subscribed to the keys `made`.
pub record Made (e : SubEntry) (m0 : Subs) (made : List Key) (m : Subs) : Type 0 where
  pub at :
      (j : Key) → entries m j ≡ (if has_key j made then entries m0 j ++ e ∷ [] else entries m0 j)
  pub new : (j : Key) → has_key j made ≡ true → has_id e.sub_id (entries m0 j) ≡ false

-- No key is among the later ones.
abbrev pub AreDistinct : List Key → Type 0
AreDistinct [] = Unit {0}
AreDistinct (k ∷ ks) = (has_key k ks ≡ false) × AreDistinct ks

has_key-append : (j k : Key) (ks : List Key) → has_key j (ks ++ k ∷ []) ≡ (has_key j ks || k == j)
unfolding any
has_key-append j k [] = ground arith
has_key-append j k (x ∷ ks) = ground (arith, has_key-append j k ks)

AreDistinct-append :
    (k : Key) (ks : List Key) → has_key k ks ≡ false → AreDistinct ks → AreDistinct (ks ++ k ∷ [])
unfolding any
AreDistinct-append k [] h d = (refl, tt)
AreDistinct-append k (x ∷ ks) h d = ground (arith, AreDistinct-append k ks, has_key-append x k ks)

module _ (e : SubEntry) (m0 : Subs) where
  -- The key that was subscribed first is unsubscribed first.
  unsubscribe-Made :
      (k : Key) (made : List Key) (m : Subs)
      → has_key k made ≡ false
      → Made e m0 (k ∷ made) m
      → ((unsubscribe k e.sub_id m).0 ≡ none) × Made e m0 made (unsubscribe k e.sub_id m).1
  unfolding unsubscribe any
  unsubscribe-Made k made m f h = (
    ground (arith, h.at k, has_id-append e (entries m0 k)),
    record {
      at = λ j. ground (
        arith,
        h.at k,
        h.at j,
        h.new k,
        has_id-append e (entries m0 k),
        remove_id-append e (entries m0 k),
      );
      new = λ j t. ground (arith, h.new j);
    },
  )

  rollback-entries :
      (made : List Key) (m : Subs)
      → AreDistinct made
      → Made e m0 made m
      → (j : Key) → entries (rollback made e.sub_id m) j ≡ entries m0 j
  unfolding rollback any
  rollback-entries [] m d h j = h.at j
  rollback-entries (k ∷ made) m d h j =
      rollback-entries made _ d.1 (unsubscribe-Made k made m d.0 h).1 j

  unsubscribe_loop-entries :
      (made : List Key) (m : Subs)
      → AreDistinct made
      → Made e m0 made m
      → ((unsubscribe_loop none made e.sub_id m).0 ≡ none)
        × ((j : Key) → entries (unsubscribe_loop none made e.sub_id m).1 j ≡ entries m0 j)
  unfolding unsubscribe_loop any
  unsubscribe_loop-entries [] m d h = (refl, h.at)
  unsubscribe_loop-entries (k ∷ made) m d h =
      let (gone, rest) = unsubscribe-Made k made m d.0 h in
      rw (gone, unsubscribe_loop) (unsubscribe_loop-entries made _ d.1 rest)

  subscribe-Made :
      (k : Key) (made : List Key) (m : Subs)
      → Made e m0 made m
      → (subscribe k e m).0 ≡ none
      → (has_key k made ≡ false) × Made e m0 (made ++ k ∷ []) (subscribe k e m).1
  unfolding subscribe
  subscribe-Made k made m h n = (
    ground (arith, h.at k, has_id-append e (entries m0 k)),
    record {
      at = λ j.
          ground (arith, h.at k, h.at j, has_key-append j k made, has_id-append e (entries m0 k));
      new = λ j t.
          ground (arith, h.at k, h.new j, has_key-append j k made, has_id-append e (entries m0 k));
    },
  )

  -- How a loop of subscriptions ends: undone, or done for every key.
  abbrev Settled : List Key → Option Error × Subs → Type 0
  Settled ks (some x, m) = (j : Key) → entries m j ≡ entries m0 j
  Settled ks (none, m) = AreDistinct ks × Made e m0 ks m

  subscribe_loop-Settled :
      (made ks : List Key) (m : Subs)
      → AreDistinct made
      → Made e m0 made m
      → Settled (made ++ ks) (subscribe_loop made ks e m)
  unfolding subscribe_loop
  subscribe_loop-Settled made [] m d h =
      subst (λ l. AreDistinct l × Made e m0 l m) (sym (append-nil made)) (d, h)
  subscribe_loop-Settled made (k ∷ ks) m d h = elim (Option-cases (subscribe k e m).0) [
    | inl n ↦
        let (f, h') = subscribe-Made k made m h n in
        rw (n, subscribe_loop)
          (subst (λ l. Settled l (subscribe_loop (made ++ k ∷ []) ks e (subscribe k e m).1))
            (append_assoc made (k ∷ []) ks)
            (subscribe_loop-Settled (made ++ k ∷ []) ks _ (AreDistinct-append k made f d) h'))
    | inr (x, n) ↦ rw (n, subscribe_loop) (rollback-entries made m d h)
  ]

module _ (ks : List Key) (e : SubEntry) (m : Subs) where
  settled : Settled e m ks (subscribe_all ks e m)
  unfolding subscribe_all any
  settled = subscribe_loop-Settled e m [] ks m tt (record { at = λ j. refl; new = λ j t. cc })

  -- A subscription to several keys that fails at one of them leaves the subscribers of every key as
  -- they were.
  pub subscribe_all-atomic :
      (x : Error)
      → (subscribe_all ks e m).0 ≡ some x
      → (j : Key) → entries (subscribe_all ks e m).1 j ≡ entries m j
  subscribe_all-atomic x h j = on_failure (subscribe_all ks e m) x h settled j
    where
      on_failure :
          (r : Option Error × Subs) (x : Error)
          → r.0 ≡ some x
          → Settled e m ks r
          → (j : Key) → entries r.1 j ≡ entries m j
      on_failure (some y, m') x h s j = s j
      on_failure (none, m') x h s j = cc

  on_success :
      (r : Option Error × Subs) → r.0 ≡ none → Settled e m ks r → AreDistinct ks × Made e m ks r.1
  on_success (some y, m') h s = cc
  on_success (none, m') h s = s

  -- One that succeeds appends the subscriber to each of the keys, which are distinct and had no
  -- subscriber of that id, and to no other key.
  pub subscribe_all-entries :
      (subscribe_all ks e m).0 ≡ none
      → (j : Key)
      → AreDistinct ks
        × ((has_key j ks && has_id e.sub_id (entries m j)) ≡ false)
        × (entries (subscribe_all ks e m).1 j
            ≡ (if has_key j ks then entries m j ++ e ∷ [] else entries m j))
  subscribe_all-entries h j =
      let (d, made) = on_success (subscribe_all ks e m) h settled in
      (d, ground (arith, made.new j), made.at j)

  -- Unsubscribing from the same keys succeeds, and leaves the subscribers of every key as they were
  -- before the subscription.
  pub unsubscribe_all-subscribe_all :
      (subscribe_all ks e m).0 ≡ none
      → (j : Key)
      → let r = unsubscribe_all ks e.sub_id (subscribe_all ks e m).1 in
        (r.0 ≡ none) × (entries r.1 j ≡ entries m j)
  unfolding unsubscribe_all
  unsubscribe_all-subscribe_all h j =
      let (d, made) = on_success (subscribe_all ks e m) h settled in
      let (r, back) = unsubscribe_loop-entries e m ks _ d made in (r, back j)
