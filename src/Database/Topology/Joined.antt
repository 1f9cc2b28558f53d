-- ===== src/Database/Topology/Joined.antt =====
-- What adding a link to a topology leaves, whatever the link's fields are.
use onldaemons.Prelude.{
  ℕ, ◌≡◌, refl, ap, sym, subst, ◌∙◌, Bool, true, false, ◌&&◌, Option, none, some, ◌==◌, ◌++◌, ◌∷◌,
  [], ◌<◌, if◌then◌else◌, arith, Bool-cases, inl, inr,
}
use onldaemons.Database.Topology.{LinkResource, Topology, Response}
use onldaemons.Database.Topology.Links.{attach, store_link, insert_link}
use onldaemons.Database.Topology.Lookup.{link_label}
use onldaemons.Database.Topology.Named.{used}
use onldaemons.Database.Topology.Adopt.{IsIndexed}
use onldaemons.Database.Topology.Nodes.{succeeds}
use onldaemons.Database.Topology.Ends.{
  first_node, find_ends_lem, has_link-used, find_link, stored-node_at, once_if, stored-IsIndexed,
  stored-find_link,
}

-- The response to a new link, by whether its label is used and by the nodes of its ends.
abbrev pub link_response : (label label1 label2 : ℕ) → Bool → (end1 end2 : Option ℕ) → Response
link_response label label1 label2 true end1 end2 = Response.already_used label
link_response label label1 label2 false none end2 = Response.node1_not_found label1
link_response label label1 label2 false (some n) none = Response.node2_not_found label2
link_response label label1 label2 false (some n) (some m) = Response.success

-- The link between the nodes of its ends.
abbrev pub between : (ℕ → ℕ → LinkResource) → (end1 end2 : Option ℕ) → Option LinkResource
between make none end2 = none
between make (some n) none = none
between make (some n) (some m) = some (make n m)

abbrev pub is_node : ℕ → Option ℕ → Bool
is_node n none = false
is_node n (some m) = n == m

pub record InsertsLink (label : ℕ) (make : ℕ → ℕ → LinkResource) (label1 label2 : ℕ) (t : Topology)
    (r : Response × Topology) : Type 0 where
  pub response :
      r.0
      ≡ link_response label label1 label2
          (used (link_label t) label t.links)
          (first_node label1 t.nodes t)
          (first_node label2 t.nodes t)
  pub found :
      (l : ℕ)
      → find_link l r.1 ≡ (
          if succeeds r.0 && label == l
          then between make (first_node label1 t.nodes t) (first_node label2 t.nodes t)
          else find_link l t)
  pub kept : r.1 ≡ (if succeeds r.0 then r.1 else t)
  pub nodes : r.1.nodes ≡ t.nodes
  pub links : r.1.links ≡ (if succeeds r.0 then t.links ++ (t.next_link ∷ []) else t.links)
  pub node_at :
      (n : ℕ)
      → r.1.node_at n ≡ (
          if succeeds r.0
          then record (t.node_at n) {
            links =
                (t.node_at n).links
                ++ (once_if (is_node n (first_node label1 t.nodes t)) t.next_link
                    ++ once_if (is_node n (first_node label2 t.nodes t)) t.next_link);
          }
          else t.node_at n)
  pub link_at : (l : ℕ) → l < t.next_link → r.1.link_at l ≡ t.link_at l
  pub indexed : IsIndexed r.1

store_link-InsertsLink :
    (label : ℕ) (make : ℕ → ℕ → LinkResource) (label1 label2 : ℕ) (t : Topology) (e1 e2 : Option ℕ)
    → ((n m : ℕ) → (make n m).label ≡ label)
    → IsIndexed t
    → used (link_label t) label t.links ≡ false
    → first_node label1 t.nodes t ≡ e1
    → first_node label2 t.nodes t ≡ e2
    → InsertsLink label make label1 label2 t (store_link make label1 label2 (e1, e2) t)
unfolding store_link attach
store_link-InsertsLink label make label1 label2 t none e2 named w free f1 f2 = record {
  response = rw free (rw f1 refl);
  found = λ l. refl;
  kept = refl;
  nodes = refl;
  links = refl;
  node_at = λ n. refl;
  link_at = λ l h. refl;
  indexed = w;
}
store_link-InsertsLink label make label1 label2 t (some n) none named w free f1 f2 = record {
  response = rw free (rw f1 (rw f2 refl));
  found = λ l. refl;
  kept = refl;
  nodes = refl;
  links = refl;
  node_at = λ n. refl;
  link_at = λ l h. refl;
  indexed = w;
}
store_link-InsertsLink label make label1 label2 t (some n) (some m) named w free f1 f2 =
    let e = named n m in
    let free' = subst (λ l. used (link_label t) l t.links ≡ false) (sym e) free in
    record {
      response = rw free (rw f1 (rw f2 refl));
      found = λ l.
          stored-find_link (make n m) n m t w free' l
          ∙ (ap (λ k. if k == l then some (make n m) else find_link l t) e ∙ rw f1 (rw f2 refl));
      kept = refl;
      nodes = refl;
      links = refl;
      node_at = λ k. rw f1 (rw f2 (stored-node_at (make n m) n m t k));
      link_at = λ l h. let old : (l == t.next_link) ≡ false = ground arith in rw old refl;
      indexed = stored-IsIndexed (make n m) n m t w free';
    }

pub insert_link-InsertsLink :
    (label : ℕ) (make : ℕ → ℕ → LinkResource) (label1 label2 : ℕ) (t : Topology)
    → ((n m : ℕ) → (make n m).label ≡ label)
    → IsIndexed t
    → InsertsLink label make label1 label2 t (insert_link label make label1 label2 t)
unfolding insert_link
insert_link-InsertsLink label make label1 label2 t named w =
    elim (Bool-cases (used (link_label t) label t.links)) [
      | inl taken ↦ rw (has_link-used label t.links t) (
          rw taken (record {
            response = rw taken refl;
            found = λ l. refl;
            kept = refl;
            nodes = refl;
            links = refl;
            node_at = λ n. refl;
            link_at = λ l h. refl;
            indexed = w;
          }))
      | inr free ↦ rw (has_link-used label t.links t) (
          rw free (
            rw (find_ends_lem label1 label2 t.nodes none none t)
              (store_link-InsertsLink label make label1 label2 t _ _ named w free refl refl)))
    ]
