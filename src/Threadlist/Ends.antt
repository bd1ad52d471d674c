-- ===== src/Threadlist/Ends.antt =====
-- What the public functions of thread/threadlist.c do to the list of threads.
use mathlib.Core.List.{append-nil, append_assoc}
use polito_os161v.Common.{
  ◌==◌, false, ℕ, ◌≡◌, ◌≢◌, refl, sym, ap, subst, ◌∙◌, List, [], ◌∷◌, ◌++◌, NotIn, Distinct,
  ne_of_NotIn, ok, Run, NotIn-remove, Distinct-NotIn,
}
use polito_os161v.Kernel.{put, put_self, put_ne}
use polito_os161v.Threadlist.{
  Nodes, Threadlist, addhead, addtail, remhead, remtail, insertafter, insertbefore, remove,
  take_off, threadlistnode_cleanup, threadlist_init,
}
use polito_os161v.Threadlist.Laws.{
  Chain, Chain-link, Chain-drop, last, Holds, IsFree, Changes, nodes, nodes_split, before, after,
  beyond, last-NotIn-ne, ne→==, insert-Changes, remove-Changes, insertafternode_lem,
  insertbeforenode_lem, removenode_lem, with_node, without_node, Selves-remove,
}

-- The call returns, and has changed the list from `xs` to `ys` at the node `t`.
abbrev pub Does : {A : Type 0} → Threadlist → List ℕ → ℕ → Nodes → List ℕ → A → Run Nodes A → Type 0
Does tl xs t s ys a r = (s' : Nodes) × (r ≡ ok a s') × Changes tl xs t s ys s'

module _ (tl : Threadlist) (pre post : List ℕ) (t : ℕ) (s : Nodes) where
  -- The links and the non-zero nodes at the place between `pre` and `post`.
  place :
      Holds tl (pre ++ post) s
      → (s.next (before tl pre post t s) ≡ after tl pre post t s)
        × (s.prev (after tl pre post t s) ≡ before tl pre post t s)
        × ((before tl pre post t s == 0) ≡ false)
        × ((after tl pre post t s == 0) ≡ false)
  place v =
      let e = nodes_split tl pre post in
      let (p, q) =
        Chain-link s pre tl.head (after tl pre post t s) (beyond tl post)
          (subst (Chain s tl.head) e v.links) in
      let z = subst (λ l. NotIn 0 (tl.head ∷ l)) e v.nonzero in
      (
        p,
        q,
        ne→== (last-NotIn-ne pre tl.head _ z),
        ne→== (ne_of_NotIn 0 (after tl pre post t s) (tl.head ∷ pre) (beyond tl post) z),
      )

  -- A free thread is no node of the list.
  apart : IsFree tl (pre ++ post) t s → (t ≢ before tl pre post t s) × (t ≢ after tl pre post t s)
  apart f =
      let k = subst (λ l. NotIn t (tl.head ∷ l)) (nodes_split tl pre post) f.apart in
      (
        last-NotIn-ne pre tl.head _ k,
        ne_of_NotIn t (after tl pre post t s) (tl.head ∷ pre) (beyond tl post) k,
      )

  insertafternode_place :
      Holds tl (pre ++ post) s
      → IsFree tl (pre ++ post) t s
      → insertafter tl (before tl pre post t s) t s ≡ ok tt (with_node tl pre post t s)
  unfolding insertafter
  insertafternode_place v f =
      let (n, p, a0, b0) = place v in
      let (ta, tb) = apart f in rw (insertafternode_lem s _ t _ a0 (ne→== f.nonzero) b0 ta n) refl

  insertbeforenode_place :
      Holds tl (pre ++ post) s
      → IsFree tl (pre ++ post) t s
      → insertbefore tl t (after tl pre post t s) s ≡ ok tt (with_node tl pre post t s)
  unfolding insertbefore
  insertbeforenode_place v f =
      let (n, p, a0, b0) = place v in
      let (ta, tb) = apart f in rw (insertbeforenode_lem s _ t _ a0 (ne→== f.nonzero) b0 ta p) refl

  -- The same for a place that `t` takes up.
  occupied :
      Holds tl (pre ++ t ∷ post) s
      → (s.next (before tl pre post t s) ≡ t)
        × (s.prev t ≡ before tl pre post t s)
        × (s.next t ≡ after tl pre post t s)
        × (s.prev (after tl pre post t s) ≡ t)
        × ((t == 0) ≡ false)
        × ((before tl pre post t s == 0) ≡ false)
        × ((after tl pre post t s == 0) ≡ false)
        × (t ≢ before tl pre post t s)
  occupied v =
      let rest = after tl pre post t s ∷ beyond tl post in
      let e : nodes tl (pre ++ t ∷ post) ≡ pre ++ t ∷ rest =
        nodes_split tl pre (t ∷ post) ∙ ap (λ l. pre ++ t ∷ l) (nodes_split tl [] post) in
      let c = subst (Chain s tl.head) e v.links in
      let z = subst (λ l. NotIn 0 (tl.head ∷ l)) e v.nonzero in
      let d = subst (λ l. Distinct (tl.head ∷ l)) e v.distinct in
      let (p, q) = Chain-link s pre tl.head t rest c in
      let onward = Chain-drop s pre tl.head t rest c in
      (
        p,
        q,
        onward.0,
        onward.1,
        ne→== (ne_of_NotIn 0 t (tl.head ∷ pre) rest z),
        ne→== (last-NotIn-ne pre tl.head _ z),
        ne→== (ne_of_NotIn 0 _ (tl.head ∷ pre) _ (NotIn-remove 0 t (tl.head ∷ pre) rest z)),
        last-NotIn-ne pre tl.head rest (Distinct-NotIn t (tl.head ∷ pre) rest d),
      )

  removenode_place :
      Holds tl (pre ++ t ∷ post) s → remove tl t s ≡ ok tt (without_node tl pre post t s)
  unfolding remove
  removenode_place v =
      let (n, p, n', p', t0, a0, b0, ta) = occupied v in
      rw (removenode_lem s _ t _ a0 t0 b0 ta n' p) refl

-- The last node, where the end of `pre` is known.
last-append : (h x : ℕ) (pre : List ℕ) → last h (pre ++ x ∷ []) ≡ x
last-append h x [] = refl
last-append h x (y ∷ pre) = last-append y x pre

module _ (tl : Threadlist) {xs : List ℕ} {t : ℕ} {s : Nodes} (v : Holds tl xs s)
    (f : IsFree tl xs t s) where
  -- On a list that holds `xs`, and for a thread that is on none of its places, threadlist_addhead
  -- makes the list hold the thread and then `xs`, and threadlist_addtail `xs` and then the thread.
  -- Nodes and counts of other lists do not change.
  pub add_lem :
      Does tl xs t s (t ∷ xs) tt (addhead tl t s)
      × Does tl xs t s (xs ++ t ∷ []) tt (addtail tl t s)
  unfolding addhead insertafter addtail insertbefore
  add_lem =
      let e = append-nil xs in
      let v' = subst (λ l. Holds tl l s) (sym e) v in
      let f' = subst (λ l. IsFree tl l t s) (sym e) f in
      (
        (_, insertafternode_place tl [] xs t s v f, insert-Changes tl [] xs t s v f),
        (
          with_node tl xs [] t s,
          insertbeforenode_place tl xs [] t s v' f',
          subst (λ l. Changes tl l t s (xs ++ t ∷ []) (with_node tl xs [] t s)) e
              (insert-Changes tl xs [] t s v' f'),
        ),
      )

module _ (tl : Threadlist) (pre post : List ℕ) (x t : ℕ) {s : Nodes}
    (v : Holds tl (pre ++ x ∷ post) s) (f : IsFree tl (pre ++ x ∷ post) t s) where
  -- With a thread `x` anywhere on the list, threadlist_insertafter puts a thread that is not on it
  -- right after `x`, and threadlist_insertbefore right before; all others keep their places, and
  -- nodes and counts of other lists do not change.
  pub insert_lem :
      Does tl (pre ++ x ∷ post) t s (pre ++ x ∷ t ∷ post) tt (insertafter tl x t s)
      × Does tl (pre ++ x ∷ post) t s (pre ++ t ∷ x ∷ post) tt (insertbefore tl t x s)
  insert_lem =
      let e : (pre ++ x ∷ []) ++ post ≡ pre ++ x ∷ post = append_assoc pre (x ∷ []) post in
      let e' : (pre ++ x ∷ []) ++ t ∷ post ≡ pre ++ x ∷ t ∷ post =
        append_assoc pre (x ∷ []) (t ∷ post) in
      let v' = subst (λ l. Holds tl l s) (sym e) v in
      let f' = subst (λ l. IsFree tl l t s) (sym e) f in
      let s' = with_node tl (pre ++ x ∷ []) post t s in
      (
        (
          s',
          subst (λ o. insertafter tl o t s ≡ ok tt s') (last-append tl.head x pre)
              (insertafternode_place tl (pre ++ x ∷ []) post t s v' f'),
          subst (λ l. Changes tl (pre ++ x ∷ post) t s l s') e'
              (subst (λ l. Changes tl l t s ((pre ++ x ∷ []) ++ t ∷ post) s') e
                (insert-Changes tl (pre ++ x ∷ []) post t s v' f')),
        ),
        (
          with_node tl pre (x ∷ post) t s,
          insertbeforenode_place tl pre (x ∷ post) t s v f,
          insert-Changes tl pre (x ∷ post) t s v f,
        ),
      )

-- The call returns `a`, and `t` is off the list, which holds `ys` now: `t` may be put on a list
-- again, and `threadlistnode_cleanup` accepts it.
abbrev pub TakesOff :
    {A : Type 0} → Threadlist → List ℕ → ℕ → Nodes → List ℕ → A → Run Nodes A → Type 0
TakesOff tl xs t s ys a r =
    (s' : Nodes) × (r ≡ ok a s')
    × Changes tl xs t s ys s'
    × IsFree tl ys t s'
    × (threadlistnode_cleanup t s' ≡ ok tt s')

module _ (tl : Threadlist) (pre post : List ℕ) (t : ℕ) (s : Nodes)
    (v : Holds tl (pre ++ t ∷ post) s) where
  without_node-IsFree :
      IsFree tl (pre ++ post) t (without_node tl pre post t s)
      × (threadlistnode_cleanup t (without_node tl pre post t s)
          ≡ ok tt (without_node tl pre post t s))
  unfolding threadlistnode_cleanup
  without_node-IsFree =
      let (n, p, n', p', t0, a0, b0, ta) = occupied tl pre post t s v in
      let e = (Selves-remove s.self t pre post v.selves).0 in
      let rest = after tl pre post t s ∷ beyond tl post in
      let full : nodes tl (pre ++ t ∷ post) ≡ pre ++ t ∷ rest =
        nodes_split tl pre (t ∷ post) ∙ ap (λ l. pre ++ t ∷ l) (nodes_split tl [] post) in
      let d = subst (λ l. Distinct (tl.head ∷ l)) full v.distinct in
      let z = subst (λ l. NotIn 0 (tl.head ∷ l)) full v.nonzero in
      (
        record {
          nonzero = ne_of_NotIn 0 t (tl.head ∷ pre) rest z;
          apart =
              subst (λ l. NotIn t (tl.head ∷ l)) (sym (nodes_split tl pre post))
                (Distinct-NotIn t (tl.head ∷ pre) rest d);
          self = e;
        },
        simp (t0, put_self, e),
      )

  -- threadlist_remove takes a thread off the list wherever it stands, and the others keep their
  -- order. The thread's node is clean afterwards; nodes and counts of other lists do not change.
  pub remove_lem : TakesOff tl (pre ++ t ∷ post) t s (pre ++ post) tt (remove tl t s)
  remove_lem = (
    without_node tl pre post t s,
    removenode_place tl pre post t s v,
    remove-Changes tl pre post t s v,
    without_node-IsFree.0,
    without_node-IsFree.1,
  )

  take_off_lem : take_off tl t s ≡ ok t (without_node tl pre post t s)
  unfolding take_off remove
  take_off_lem =
      let (n, p, n', p', t0, a0, b0, ta) = occupied tl pre post t s v in
      let e = (Selves-remove s.self t pre post v.selves).0 in
      rw (removenode_lem s _ t _ a0 t0 b0 ta n' p, e) refl

  taken_off : TakesOff tl (pre ++ t ∷ post) t s (pre ++ post) t (take_off tl t s)
  taken_off = (
    without_node tl pre post t s,
    take_off_lem,
    remove-Changes tl pre post t s v,
    without_node-IsFree.0,
    without_node-IsFree.1,
  )

-- `removenode` at either end of a list that is not empty.
module _ (tl : Threadlist) (xs : List ℕ) (x : ℕ) (s : Nodes) where
  remhead-cons : Holds tl (x ∷ xs) s → TakesOff tl (x ∷ xs) x s xs x (remhead tl s)
  unfolding remhead
  remhead-cons v =
      let (n, p, n', p', t0, a0, b0, ta) = occupied tl [] xs x s v in
      subst (TakesOff tl (x ∷ xs) x s xs x) (sym (simp (a0, n, t0, n', b0)))
        (taken_off tl [] xs x s v)

  remtail-append : Holds tl (xs ++ x ∷ []) s → TakesOff tl (xs ++ x ∷ []) x s xs x (remtail tl s)
  unfolding remtail
  remtail-append v =
      let (n, p, n', p', t0, a0, b0, ta) = occupied tl xs [] x s v in
      subst (λ l. TakesOff tl (xs ++ x ∷ []) x s l x (remtail tl s)) (append-nil xs)
        (subst (TakesOff tl (xs ++ x ∷ []) x s (xs ++ []) x) (sym (simp (b0, p', t0, p, a0)))
          (taken_off tl xs [] x s v))

-- The two removals on an empty list.
module _ (tl : Threadlist) {s : Nodes} where
  rem-nil : Holds tl [] s → (remhead tl s ≡ ok 0 s) × (remtail tl s ≡ ok 0 s)
  unfolding remhead remtail
  rem-nil v =
      let a0 = ne→== v.nonzero.0 in
      let b0 = ne→== v.nonzero.1.0 in
      (rw (a0, v.links.0, b0, v.links.2) refl, rw (b0, v.links.1, a0, v.first) refl)

-- The two ways in which both removals end, for a list that holds `ys`.
pub data Ends (tl : Threadlist) (s : Nodes) (ys : List ℕ) : Run Nodes ℕ → Run Nodes ℕ → Type 0 where
  empty : ys ≡ [] → Ends tl s ys (ok 0 s) (ok 0 s)
  ends :
      {x y : ℕ} {xs zs : List ℕ} {r r' : Run Nodes ℕ}
      → ys ≡ x ∷ xs
      → ys ≡ zs ++ y ∷ []
      → TakesOff tl ys x s xs x r
      → TakesOff tl ys y s zs y r'
      → Ends tl s ys r r'

-- A list that is not empty has a last element.
unsnoc : (x : ℕ) (xs : List ℕ) → (zs : List ℕ) × (y : ℕ) × (x ∷ xs ≡ zs ++ y ∷ [])
unsnoc x [] = ([], x, refl)
unsnoc x (z ∷ xs) = let (zs, y, e) = unsnoc z xs in (x ∷ zs, y, ap (λ l. x ∷ l) e)

-- threadlist_remhead and threadlist_remtail return NULL and change nothing on an empty list, and
-- otherwise return the first and the last thread and take it off: the others keep their order, the
-- thread's node is clean, and nodes and counts of other lists do not change.
pub rem_lem :
    (tl : Threadlist) (s : Nodes) (ys : List ℕ)
    → Holds tl ys s
    → Ends tl s ys (remhead tl s) (remtail tl s)
rem_lem tl s [] v = let (h, t) = rem-nil tl v in rw (h, t) (empty refl)
rem_lem tl s (x ∷ xs) v =
    let (zs, y, e) = unsnoc x xs in
    ends refl e (remhead-cons tl xs x s v) (
      subst (λ l. TakesOff tl l y s zs y (remtail tl s)) (sym e)
        (remtail-append tl zs y s (subst (λ l. Holds tl l s) e v)))

-- threadlist_init, at two different addresses that are not NULL, makes an empty list.
module _ (tl : Threadlist) (s : Nodes) where
  abbrev initial : Nodes
  initial = record {
    next = put (put s.next tl.head tl.tail) tl.tail 0;
    prev = put (put s.prev tl.head 0) tl.tail tl.head;
    self = put (put s.self tl.head 0) tl.tail 0;
    count = put s.count tl.head 0;
  }

  pub threadlist_init-Holds :
      0 ≢ tl.head
      → 0 ≢ tl.tail
      → tl.head ≢ tl.tail
      → (s' : Nodes) × (threadlist_init tl s ≡ ok tt s') × Holds tl [] s'
  unfolding threadlist_init
  threadlist_init-Holds h t ne =
      let a0 = ne→== h in
      let b0 = ne→== t in
      (
        initial,
        simp (a0, b0),
        record {
          links = (
            put_ne _ tl.tail 0 tl.head ne ∙ put_self _ tl.head tl.tail,
            put_self _ tl.tail tl.head,
            put_self _ tl.tail 0,
          );
          distinct = ((ne, tt), (tt, tt));
          nonzero = (h, (t, tt));
          first = put_ne _ tl.tail tl.head tl.head ne ∙ put_self _ tl.head 0;
          selves = tt;
          counted = put_self _ tl.head 0;
        },
      )
