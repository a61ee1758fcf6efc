-- ===== src/Broker/Others.antt =====
-- What `destroy` of Host.antt removes, and what it leaves alone.
use gpt_trace_extractor_for.Base.{
  String, ◌≡◌, refl, sym, subst, ap, ◌||◌, Option, none, some, Bool, true, false, not, ◌&&◌,
  string_eq, if◌then◌else◌, arith,
}
use gpt_trace_extractor_for.Exceptions.{Outcome, ok, raised}
use gpt_trace_extractor_for.Exec.{return, throw, from, ◌>>=◌, when}
use gpt_trace_extractor_for.Exec.Keeps.{
  Keeps, Keeps-if, Keeps-from, Keeps-when, keeping, Ends, Ensures, Ensures-bind, Ensures-Keeps,
  Ensures-post,
}
use gpt_trace_extractor_for.Broker.Host.{
  is_listed, nft_list, virsh_list, net_list, refuse_unowned, has_network, lookup, is_there, Host,
  Command, Paths, assert_absent, tear_down, destroy,
}
use gpt_trace_extractor_for.Broker.Frame.{
  Untouched, destroy_domain-Keeps, destroy_network-Keeps, remove_firewall-Keeps, unmount-Keeps,
  remove_folder-Keeps,
}

-- Nothing of the attempt is on the host: no folder, no table, no domain and, if it has one, no
-- network.
abbrev pub NetworkIsGone : Option String → Host → Type 0
NetworkIsGone none s = Unit
NetworkIsGone (some network) s = lookup network s.networks ≡ none

pub record IsGone (p : Paths) (s : Host) : Type 0 where
  pub folder : lookup p.directory s.folders ≡ none
  pub table : lookup p.table s.tables ≡ none
  pub domain : lookup p.name s.domains ≡ none
  pub network : NetworkIsGone p.network s

not_there : {S : Type 0} (o : Option S) → is_there o ≡ false → o ≡ none
not_there none h = refl
not_there (some x) h = cc

no_network : (o : Option String) (s : Host) → has_network o s ≡ false → NetworkIsGone o s
no_network none s h = tt
no_network (some network) s h = not_there _ h

module _ (outcome : Command → Host → Outcome (Unit {0})) (p : Paths) (h : Host) where
  abbrev Others : Host → Type 0
  Others = Untouched p h

  abbrev Lists : Type 0
  Lists = (s : Host) → outcome nft_list s ≡ ok tt

  assert_absent-same : (s : Host) → (assert_absent outcome p s).1 ≡ s
  unfolding assert_absent from throw return ◌>>=◌
  assert_absent-same s = ground (arith, outcome virsh_list s, outcome net_list s)

  assert_absent-flags :
      (s : Host)
      → (assert_absent outcome p s).0 ≡ ok tt
      → ((is_there (lookup p.directory s.folders) || is_listed outcome p.table s) ≡ false)
        × (is_there (lookup p.name s.domains) ≡ false)
        × (has_network p.network s ≡ false)
  unfolding assert_absent from throw return ◌>>=◌
  assert_absent-flags s o = ground (arith, outcome virsh_list s, outcome net_list s)

  listed_all :
      (s : Host)
      → outcome nft_list s ≡ ok tt
      → is_listed outcome p.table s ≡ is_there (lookup p.table s.tables)
  unfolding is_listed
  listed_all s e = rw e refl

  flags-IsGone :
      (s : Host)
      → outcome nft_list s ≡ ok tt
      → ((is_there (lookup p.directory s.folders) || is_listed outcome p.table s) ≡ false)
        × (is_there (lookup p.name s.domains) ≡ false)
        × (has_network p.network s ≡ false)
      → IsGone p s
  flags-IsGone s e (found, known, linked) = record {
    folder = not_there _ (ground (arith, found));
    table = not_there _ (ground (arith, found, listed_all s e));
    domain = not_there _ known;
    network = no_network p.network s linked;
  }

  absent_ends :
      (s : Host) (r : Outcome (Unit {0}) × Host)
      → assert_absent outcome p s ≡ r
      → r.1 ≡ s
      → Others s
      → Ends (λ u t. Others t × (Lists → IsGone p t)) Others r
  absent_ends s (ok u, t) e q k = (
    subst Others (sym q) k,
    λ lists.
        subst (IsGone p) (sym q)
          (flags-IsGone s (lists s) (assert_absent-flags s (ap (λ x. x.0) e))),
  )
  absent_ends s (raised x, t) e q k = subst Others (sym q) k

  assert_absent-run :
      Ensures Others (λ u t. Others t × (Lists → IsGone p t)) Others (assert_absent outcome p)
  assert_absent-run = record {
    run = λ s k. absent_ends s (assert_absent outcome p s) refl (assert_absent-same s) k;
  }

  tear_down-run :
      Ensures Others (λ u t. Others t × (Lists → IsGone p t)) Others (tear_down outcome p)
  unfolding tear_down
  tear_down-run =
      Ensures-bind _ _ (Ensures-Keeps _ (destroy_domain-Keeps outcome p h) (λ s k. k)) (λ _.
        Ensures-bind _ _
          (Ensures-Keeps _ (destroy_network-Keeps outcome p h p.network refl) (λ s k. k))
          (λ _.
            Ensures-bind _ _ (Ensures-Keeps _ (remove_firewall-Keeps outcome p h) (λ s k. k)) (λ _.
              Ensures-bind _ _ (Ensures-Keeps _ (unmount-Keeps outcome p h) (λ s k. k)) (λ _.
                Ensures-bind _ _ (Ensures-Keeps _ (remove_folder-Keeps outcome p h) (λ s k. k))
                  (λ _. assert_absent-run)))))

  -- nothing is done where the folder is gone and the call is strict
  abbrev IsRemoved : Bool → Host → Type 0
  IsRemoved skipped t = Others t × (skipped ≡ false → Lists → IsGone p t)

  last_run :
      (skipped : Bool)
      → Ensures Others
          (λ u t. IsRemoved skipped t)
          Others
          (if skipped then return tt else tear_down outcome p)
  unfolding return
  last_run true = record { run = λ s k. (k, λ e. ground arith) }
  last_run false = Ensures-post _ tear_down-run (λ u t k. (k.0, λ e. k.1)) (λ t k. k)

  same_Others : Others h
  same_Others = record {
    domains = λ n e. refl;
    networks = λ n e. refl;
    tables = λ n e. refl;
    folders = λ n e. refl;
  }

  refuse_unowned-Keeps : Keeps Others (refuse_unowned outcome p.name)
  unfolding refuse_unowned
  refuse_unowned-Keeps = search (keeping) depth 9

  destroy-run :
      (read : Host → Outcome (Unit {0})) (strict : Bool)
      → Ends
          (λ u t. IsRemoved (not (is_there (lookup p.directory h.folders)) && strict) t)
          Others
          (destroy outcome read strict p h)
  unfolding destroy from ◌>>=◌
  destroy-run read strict =
      (Ensures-bind _ _
          (Ensures-Keeps
            (if is_there (lookup p.directory h.folders) && strict
              then from read
              else when strict (refuse_unowned outcome p.name))
            (Keeps-if (is_there (lookup p.directory h.folders) && strict) _ _ (Keeps-from read)
              (Keeps-when strict _ refuse_unowned-Keeps))
            (λ s k. k))
          (λ _. last_run (not (is_there (lookup p.directory h.folders)) && strict))).run
        h same_Others

  ends-Others :
      (skipped : Bool) (r : Outcome (Unit {0}) × Host)
      → Ends (λ u t. IsRemoved skipped t) Others r
      → Others r.1
  ends-Others skipped (ok u, s) e = e.0
  ends-Others skipped (raised x, s) e = e

  -- `destroy` leaves every domain, network, table and folder alone that has another name than the
  -- attempt's, whichever commands fail and however it ends.
  pub destroy_leaves_others :
      (read : Host → Outcome (Unit {0})) (strict : Bool)
      → Untouched p h (destroy outcome read strict p h).1
  destroy_leaves_others read strict = ends-Others _ _ (destroy-run read strict)

  ends-IsRemoved :
      (skipped : Bool) (r : Outcome (Unit {0}) × Host)
      → Ends {A = Unit {0}} (λ u t. IsRemoved skipped t) Others r
      → r.0 ≡ ok tt
      → skipped ≡ false
      → Lists
      → IsGone p r.1
  ends-IsRemoved skipped (ok u, s) e o k lists = e.1 k lists
  ends-IsRemoved skipped (raised x, s) e o k lists = (let bad : ⊥ = ground arith in elim bad [ ])

  -- When `destroy` returns, no domain, network, table or folder of the attempt is on the host. Two
  -- conditions: the call was not strict or there was a folder to begin with, since otherwise it
  -- removes nothing; and `nft list table` does not fail for another reason than a missing table,
  -- since the code reads any failure as absence.
  pub destroy_removes :
      (read : Host → Outcome (Unit {0})) (strict : Bool)
      → (destroy outcome read strict p h).0 ≡ ok tt
      → (not (is_there (lookup p.directory h.folders)) && strict) ≡ false
      → ((s : Host) → outcome nft_list s ≡ ok tt)
      → IsGone p (destroy outcome read strict p h).1
  destroy_removes read strict o k lists = ends-IsRemoved _ _ (destroy-run read strict) o k lists
