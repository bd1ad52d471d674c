-- ===== src/Threadlist/Laws.antt =====
-- thread/threadlist.c keeps a doubly linked list of its threads.
use polito_os161v.Common.{
  ◌==◌, false, ℕ, ◌+◌, ◌-◌, ◌^◌, ◌≡◌, ◌≢◌, refl, sym, ap, subst, ◌∙◌, List, [], ◌∷◌, ◌++◌, arith,
  NotIn, Distinct, length, u32, ok, NotIn-insert, NotIn-remove, ne_of_NotIn, Distinct-insert,
  Distinct-remove, length-append,
}
use polito_os161v.Kernel.{put, put_self, put_ne}
use polito_os161v.Threadlist.{Nodes, Threadlist, insertafternode, insertbeforenode, removenode}

-- The nodes of `xs` follow node `h`, linked both ways, and nothing follows the last.
abbrev pub Chain : Nodes → ℕ → List ℕ → Type 0
Chain s h [] = s.next h ≡ 0
Chain s h (x ∷ xs) = (s.next h ≡ x) × (s.prev x ≡ h) × Chain s x xs

-- The last node of `xs` after `h`.
abbrev pub last : ℕ → List ℕ → ℕ
last h [] = h
last h (x ∷ xs) = last x xs

-- `t` linked in between `a` and `b`, and unlinked again, with the counts `c`.
abbrev pub inserted : Nodes → (ℕ → ℕ) → ℕ → ℕ → ℕ → Nodes
inserted s c a t b = record s {
  next = put (put s.next t b) a t;
  prev = put (put s.prev t a) b t;
  count = c;
}

abbrev pub removed : Nodes → (ℕ → ℕ) → ℕ → ℕ → ℕ → Nodes
removed s c a t b = record s {
  next = put (put s.next a b) t 0;
  prev = put (put s.prev b a) t 0;
  count = c;
}

module _ (s : Nodes) where
  -- The two links across a place in the chain.
  pub Chain-link :
      (pre : List ℕ) (h b : ℕ) (post : List ℕ)
      → Chain s h (pre ++ b ∷ post)
      → (s.next (last h pre) ≡ b) × (s.prev b ≡ last h pre)
  Chain-link [] h b post c = (c.0, c.1)
  Chain-link (x ∷ pre) h b post c = Chain-link pre x b post c.2

  pub Chain-drop :
      (pre : List ℕ) (h b : ℕ) (post : List ℕ) → Chain s h (pre ++ b ∷ post) → Chain s b post
  Chain-drop [] h b post c = c.2
  Chain-drop (x ∷ pre) h b post c = Chain-drop pre x b post c.2

last-ne :
    {y : ℕ} (pre : List ℕ) (x : ℕ) (rest : List ℕ) → NotIn y ((x ∷ pre) ++ rest) → y ≢ last x pre
last-ne [] x rest n = n.0
last-ne (z ∷ pre) x rest n = last-ne pre z rest n.1

-- A chain away from the three nodes that are written stays.
module _ (s : Nodes) (c : ℕ → ℕ) (a t b : ℕ) where
  inserted-Chain-after :
      (h : ℕ) (xs : List ℕ)
      → NotIn t (h ∷ xs)
      → NotIn a (h ∷ xs)
      → NotIn b xs
      → Chain s h xs
      → Chain (inserted s c a t b) h xs
  inserted-Chain-after h [] n m k c =
      put_ne _ a t h (λ e. m.0 (sym e)) ∙ put_ne _ t b h (λ e. n.0 (sym e)) ∙ c
  inserted-Chain-after h (x ∷ xs) n m k c = (
    put_ne _ a t h (λ e. m.0 (sym e)) ∙ put_ne _ t b h (λ e. n.0 (sym e)) ∙ c.0,
    put_ne _ b t x (λ e. k.0 (sym e)) ∙ put_ne _ t a x (λ e. n.1.0 (sym e)) ∙ c.1,
    inserted-Chain-after x xs n.1 m.1 k.1 c.2,
  )

  removed-Chain-after :
      (h : ℕ) (xs : List ℕ)
      → NotIn t (h ∷ xs)
      → NotIn a (h ∷ xs)
      → NotIn b xs
      → Chain s h xs
      → Chain (removed s c a t b) h xs
  removed-Chain-after h [] n m k c =
      put_ne _ t 0 h (λ e. n.0 (sym e)) ∙ put_ne _ a b h (λ e. m.0 (sym e)) ∙ c
  removed-Chain-after h (x ∷ xs) n m k c = (
    put_ne _ t 0 h (λ e. n.0 (sym e)) ∙ put_ne _ a b h (λ e. m.0 (sym e)) ∙ c.0,
    put_ne _ t 0 x (λ e. n.1.0 (sym e)) ∙ put_ne _ b a x (λ e. k.0 (sym e)) ∙ c.1,
    removed-Chain-after x xs n.1 m.1 k.1 c.2,
  )

-- Insertion after the node `last h pre`.
inserted-Chain :
    (s : Nodes) (cs : ℕ → ℕ) (t b : ℕ) (post pre : List ℕ) (h : ℕ)
    → NotIn t (h ∷ pre ++ b ∷ post)
    → Distinct (h ∷ pre ++ b ∷ post)
    → Chain s h (pre ++ b ∷ post)
    → Chain (inserted s cs (last h pre) t b) h (pre ++ t ∷ b ∷ post)
inserted-Chain s cs t b post [] h n d c = (
  put_self _ h t,
  put_ne _ b t t n.1.0 ∙ put_self _ t h,
  (
    put_ne _ h t t n.0 ∙ put_self _ t b,
    put_self _ b t,
    inserted-Chain-after s cs h t b b post n.1 d.0 d.1.0 c.2,
  ),
)
inserted-Chain s cs t b post (x ∷ pre) h n d c =
    let a : ℕ = last x pre in
    (
      put_ne _ a t h (last-ne pre x (b ∷ post) d.0) ∙ put_ne _ t b h (λ e. n.0 (sym e)) ∙ c.0,
      put_ne _ b t x (ne_of_NotIn x b pre post d.1.0) ∙ put_ne _ t a x (λ e. n.1.0 (sym e)) ∙ c.1,
      inserted-Chain s cs t b post pre x n.1 d.1 c.2,
    )

-- Removal of `t`, the node after `last h pre`.
removed-Chain :
    (s : Nodes) (cs : ℕ → ℕ) (t b : ℕ) (post pre : List ℕ) (h : ℕ)
    → Distinct (h ∷ pre ++ t ∷ b ∷ post)
    → Chain s h (pre ++ t ∷ b ∷ post)
    → Chain (removed s cs (last h pre) t b) h (pre ++ b ∷ post)
removed-Chain s cs t b post [] h d c = (
  put_ne _ t 0 h d.0.0 ∙ put_self _ h b,
  put_ne _ t 0 b (λ e. d.1.0.0 (sym e)) ∙ put_self _ b h,
  removed-Chain-after s cs h t b b post d.1.0 d.0.1 d.1.1.0 c.2.2,
)
removed-Chain s cs t b post (x ∷ pre) h d c =
    let a : ℕ = last x pre in
    (
      put_ne _ t 0 h (ne_of_NotIn h t (x ∷ pre) (b ∷ post) d.0)
          ∙ put_ne _ a b h (last-ne pre x (t ∷ b ∷ post) d.0)
          ∙ c.0,
      put_ne _ t 0 x (ne_of_NotIn x t pre (b ∷ post) d.1.0)
          ∙ put_ne _ b a x (ne_of_NotIn x b pre post (NotIn-remove x t pre (b ∷ post) d.1.0))
          ∙ c.1,
      removed-Chain s cs t b post pre x d.1 c.2,
    )

module _ (s : Nodes) (a t b : ℕ) (a0 : (a == 0) ≡ false) (t0 : (t == 0) ≡ false)
    (b0 : (b == 0) ≡ false) (ta : t ≢ a) where
  pub insertafternode_lem : s.next a ≡ b → insertafternode a t s ≡ ok tt (inserted s s.count a t b)
  unfolding insertafternode
  insertafternode_lem e =
      let n : put (put s.next t b) a t t ≡ b = put_ne _ a t t ta ∙ put_self _ t b in
      simp (a0, t0, b0, e, put_self, n)

  pub insertbeforenode_lem :
      s.prev b ≡ a → insertbeforenode t b s ≡ ok tt (inserted s s.count a t b)
  unfolding insertbeforenode
  insertbeforenode_lem e =
      let n : put (put s.next t b) a t t ≡ b = put_ne _ a t t ta ∙ put_self _ t b in
      simp (a0, t0, b0, e, put_self, n)

  pub removenode_lem :
      s.next t ≡ b → s.prev t ≡ a → removenode t s ≡ ok tt (removed s s.count a t b)
  unfolding removenode
  removenode_lem e f =
      let n : put s.next a b t ≡ b = put_ne _ a b t ta ∙ e in simp (a0, t0, b0, e, f, n)

-- Each thread's node points to the thread.
abbrev pub Selves : (ℕ → ℕ) → List ℕ → Type 0
Selves self [] = Unit {0}
Selves self (x ∷ xs) = (self x ≡ x) × Selves self xs

-- All nodes of the list after `tl_head`.
abbrev pub nodes : Threadlist → List ℕ → List ℕ
nodes tl xs = xs ++ tl.tail ∷ []

-- The list `tl` holds the threads `xs`, in this order.
pub record Holds (tl : Threadlist) (xs : List ℕ) (s : Nodes) : Type 0 where
  pub links : Chain s tl.head (nodes tl xs)
  pub distinct : Distinct (tl.head ∷ nodes tl xs)
  pub nonzero : NotIn 0 (tl.head ∷ nodes tl xs)
  pub first : s.prev tl.head ≡ 0
  pub selves : Selves s.self xs
  pub counted : s.count tl.head ≡ u32 (length xs)

-- A change of the list `tl`, which held `xs` in `s`, that puts in or takes out `t`: the list now
-- holds `ys`, and nodes of other lists and their counts are as they were.
pub record Changes (tl : Threadlist) (xs : List ℕ) (t : ℕ) (s : Nodes) (ys : List ℕ) (s' : Nodes)
    : Type 0 where
  pub holds : Holds tl ys s'
  pub selfs : s'.self ≡ s.self
  pub others :
      (u : ℕ)
      → NotIn u (tl.head ∷ nodes tl xs)
      → u ≢ t
      → (s'.next u ≡ s.next u) × (s'.prev u ≡ s.prev u)
  pub counts : (l : ℕ) → l ≢ tl.head → s'.count l ≡ s.count l

-- `t` is a thread whose node is on no place of the list.
pub record IsFree (tl : Threadlist) (xs : List ℕ) (t : ℕ) (s : Nodes) : Type 0 where
  pub nonzero : 0 ≢ t
  pub apart : NotIn t (tl.head ∷ nodes tl xs)
  pub self : s.self t ≡ t

Selves-insert :
    (self : ℕ → ℕ) (t : ℕ) (pre post : List ℕ)
    → self t ≡ t
    → Selves self (pre ++ post)
    → Selves self (pre ++ t ∷ post)
Selves-insert self t [] post e h = (e, h)
Selves-insert self t (x ∷ pre) post e h = (h.0, Selves-insert self t pre post e h.1)

pub Selves-remove :
    (self : ℕ → ℕ) (t : ℕ) (pre post : List ℕ)
    → Selves self (pre ++ t ∷ post)
    → (self t ≡ t) × Selves self (pre ++ post)
Selves-remove self t [] post h = h
Selves-remove self t (x ∷ pre) post h =
    let (a, b) = Selves-remove self t pre post h.1 in (a, (h.0, b))

-- The node at which `post` begins, and those after it.
abbrev pub following : Threadlist → List ℕ → ℕ
following tl [] = tl.tail
following tl (x ∷ xs) = x

abbrev pub beyond : Threadlist → List ℕ → List ℕ
beyond tl [] = []
beyond tl (x ∷ xs) = nodes tl xs

pub nodes_split :
    (tl : Threadlist) (pre post : List ℕ)
    → nodes tl (pre ++ post) ≡ pre ++ following tl post ∷ beyond tl post
nodes_split tl [] [] = refl
nodes_split tl [] (x ∷ post) = refl
nodes_split tl (y ∷ pre) post = ap (λ l. y ∷ l) (nodes_split tl pre post)

pub last-NotIn-ne :
    {u : ℕ} (pre : List ℕ) (h : ℕ) (rest : List ℕ) → NotIn u (h ∷ pre ++ rest) → u ≢ last h pre
last-NotIn-ne [] h rest n = n.0
last-NotIn-ne (x ∷ pre) h rest n = last-NotIn-ne pre x rest n.1

pub ne→== : {x : ℕ} → 0 ≢ x → (x == 0) ≡ false
ne→== ne = ground arith

module _ (tl : Threadlist) (pre post : List ℕ) (t : ℕ) (s : Nodes) where
  -- The node before and the node after the place between `pre` and `post`.
  abbrev pub before : ℕ
  before = last tl.head pre

  abbrev pub after : ℕ
  after = following tl post

  -- The nodes after the insertion and after the removal of `t`, with the count of the list.
  abbrev pub with_node : Nodes
  with_node = inserted s (put s.count tl.head (u32 (s.count tl.head + 1))) before t after

  abbrev pub without_node : Nodes
  without_node = removed s (put s.count tl.head (u32 (s.count tl.head + 2 ^ 32 - 1))) before t after

  pub insert-Changes :
      Holds tl (pre ++ post) s
      → IsFree tl (pre ++ post) t s
      → Changes tl (pre ++ post) t s (pre ++ t ∷ post) with_node
  insert-Changes v f =
      let tail : List ℕ = after ∷ beyond tl post in
      let e : nodes tl (pre ++ post) ≡ pre ++ tail = nodes_split tl pre post in
      let e' : pre ++ t ∷ tail ≡ nodes tl (pre ++ t ∷ post) =
        sym (nodes_split tl pre (t ∷ post) ∙ ap (λ l. pre ++ t ∷ l) (nodes_split tl [] post)) in
      let n : NotIn t (tl.head ∷ pre ++ tail) = subst (λ l. NotIn t (tl.head ∷ l)) e f.apart in
      let d : Distinct (tl.head ∷ pre ++ tail) = subst (λ l. Distinct (tl.head ∷ l)) e v.distinct in
      let z : NotIn 0 (tl.head ∷ pre ++ tail) = subst (λ l. NotIn 0 (tl.head ∷ l)) e v.nonzero in
      record {
        holds = record {
          links = subst (Chain with_node tl.head) e' (
              inserted-Chain s with_node.count t after (beyond tl post) pre tl.head n d
                (subst (Chain s tl.head) e v.links));
          distinct =
              subst (λ l. Distinct (tl.head ∷ l)) e' (Distinct-insert t (tl.head ∷ pre) tail n d);
          nonzero =
              subst (λ l. NotIn 0 (tl.head ∷ l)) e'
                (NotIn-insert 0 t (tl.head ∷ pre) tail f.nonzero z);
          first =
              put_ne _ after t tl.head (ne_of_NotIn tl.head after pre (beyond tl post) d.0)
              ∙ put_ne _ t before tl.head (λ x. n.0 (sym x))
              ∙ v.first;
          selves = Selves-insert s.self t pre post f.self v.selves;
          counted =
              put_self _ tl.head _
              ∙ omega
                  (arith, v.counted, length-append {0} pre post, length-append {0} pre (t ∷ post));
        };
        selfs = refl;
        others = λ u away ne.
            let k : NotIn u (tl.head ∷ pre ++ tail) = subst (λ l. NotIn u (tl.head ∷ l)) e away in
            (
              put_ne _ before t u (last-NotIn-ne pre tl.head tail k) ∙ put_ne _ t after u ne,
              put_ne _ after t u (ne_of_NotIn u after (tl.head ∷ pre) (beyond tl post) k)
                  ∙ put_ne _ t before u ne,
            );
        counts = λ l ne. put_ne _ tl.head _ l ne;
      }

  pub remove-Changes :
      Holds tl (pre ++ t ∷ post) s → Changes tl (pre ++ t ∷ post) t s (pre ++ post) without_node
  remove-Changes v =
      let tail : List ℕ = after ∷ beyond tl post in
      let e : nodes tl (pre ++ t ∷ post) ≡ pre ++ t ∷ tail =
        nodes_split tl pre (t ∷ post) ∙ ap (λ l. pre ++ t ∷ l) (nodes_split tl [] post) in
      let e' : pre ++ tail ≡ nodes tl (pre ++ post) = sym (nodes_split tl pre post) in
      let d : Distinct (tl.head ∷ pre ++ t ∷ tail) =
        subst (λ l. Distinct (tl.head ∷ l)) e v.distinct in
      let z : NotIn 0 (tl.head ∷ pre ++ t ∷ tail) =
        subst (λ l. NotIn 0 (tl.head ∷ l)) e v.nonzero in
      record {
        holds = record {
          links = subst (Chain without_node tl.head) e' (
              removed-Chain s without_node.count t after (beyond tl post) pre tl.head d
                (subst (Chain s tl.head) e v.links));
          distinct =
              subst (λ l. Distinct (tl.head ∷ l)) e' (Distinct-remove t (tl.head ∷ pre) tail d);
          nonzero = subst (λ l. NotIn 0 (tl.head ∷ l)) e' (NotIn-remove 0 t (tl.head ∷ pre) tail z);
          first =
              put_ne _ t 0 tl.head (ne_of_NotIn tl.head t pre tail d.0)
              ∙ put_ne _ after before tl.head (
                  ne_of_NotIn tl.head after pre (beyond tl post)
                    (NotIn-remove tl.head t pre tail d.0))
              ∙ v.first;
          selves = (Selves-remove s.self t pre post v.selves).1;
          counted =
              put_self _ tl.head _
              ∙ omega
                  (arith, v.counted, length-append {0} pre post, length-append {0} pre (t ∷ post));
        };
        selfs = refl;
        others = λ u away ne.
            let k : NotIn u (tl.head ∷ pre ++ tail) =
              NotIn-remove u t (tl.head ∷ pre) tail (subst (λ l. NotIn u (tl.head ∷ l)) e away) in
            (
              put_ne _ t 0 u ne ∙ put_ne _ before after u (last-NotIn-ne pre tl.head tail k),
              put_ne _ t 0 u ne
                  ∙ put_ne _ after before u
                      (ne_of_NotIn u after (tl.head ∷ pre) (beyond tl post) k),
            );
        counts = λ l ne. put_ne _ tl.head _ l ne;
      }
