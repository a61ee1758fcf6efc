-- ===== src/Broker/Frame.antt =====
-- What each part of `destroy` of Host.antt leaves alone.
use gpt_trace_extractor_for.Base.{
  String, ◌≡◌, ◌≢◌, refl, ap, ◌∙◌, Option, none, some, false, [], ◌∷◌, string_eq, eq_iff, arith,
}
use gpt_trace_extractor_for.Exceptions.{Outcome}
use gpt_trace_extractor_for.Exec.{modify}
use gpt_trace_extractor_for.Exec.Keeps.{Keeps, keeping}
use gpt_trace_extractor_for.Broker.Host.{
  DomainState, running, active, shut_off, undefine, undo_network, Resources, lookup, without,
  set_state, Host, Command, Paths, command, destroy_domain, destroy_network, remove_firewall,
  unmount, remove_folder,
}

lookup-without :
    {S : Type 0} (n name : String) (xs : Resources S)
    → name ≢ n
    → lookup n (without name xs) ≡ lookup n xs
unfolding lookup without
lookup-without n name [] h = refl
lookup-without n name ((m, state) ∷ xs) h =
    ground (arith, eq_iff m name, eq_iff m n, eq_iff name n, h, lookup-without n name xs h)

lookup-set_state :
    {S : Type 0} (n name : String) (state : S) (xs : Resources S)
    → name ≢ n
    → lookup n (set_state name state xs) ≡ lookup n xs
unfolding lookup set_state
lookup-set_state n name state [] h = refl
lookup-set_state n name state ((m, old) ∷ xs) h =
    ground (arith, eq_iff m name, eq_iff m n, eq_iff name n, h, lookup-set_state n name state xs h)

lookup-undefine :
    (n name : String) (xs : Resources DomainState)
    → name ≢ n
    → lookup n (undefine name xs) ≡ lookup n xs
unfolding lookup undefine
lookup-undefine n name [] h = refl
lookup-undefine n name ((m, running) ∷ xs) h =
    ground (arith, eq_iff m name, eq_iff m n, eq_iff name n, h, lookup-undefine n name xs h)
lookup-undefine n name ((m, active) ∷ xs) h =
    ground (arith, eq_iff m name, eq_iff m n, eq_iff name n, h, lookup-undefine n name xs h)
lookup-undefine n name ((m, shut_off) ∷ xs) h =
    ground (arith, eq_iff m name, eq_iff m n, eq_iff name n, h, lookup-undefine n name xs h)

-- every resource with another name is as it was on the host `h`
pub record Untouched (p : Paths) (h s : Host) : Type 0 where
  pub domains : (n : String) → p.name ≢ n → lookup n s.domains ≡ lookup n h.domains
  pub networks : (n : String) → p.network ≢ some n → lookup n s.networks ≡ lookup n h.networks
  pub tables : (n : String) → p.table ≢ n → lookup n s.tables ≡ lookup n h.tables
  pub folders : (n : String) → p.directory ≢ n → lookup n s.folders ≡ lookup n h.folders

module _ (outcome : Command → Host → Outcome (Unit {0})) (p : Paths) (h : Host) where
  abbrev Others : Host → Type 0
  Others = Untouched p h

  modify-Keeps :
      (effect : Host → Host)
      → ((s : Host) → Others s → Others (effect s))
      → Keeps Others (modify effect)
  unfolding modify
  modify-Keeps effect k = record { keep = k }

  command-Keeps :
      (c : Command) (effect : Host → Host)
      → ((s : Host) → Others s → Others (effect s))
      → Keeps Others (command outcome c effect)
  unfolding command
  command-Keeps c effect k = search (keeping, modify-Keeps, k)

  pub destroy_domain-Keeps : Keeps Others (destroy_domain outcome p.name)
  unfolding destroy_domain
  destroy_domain-Keeps = search (keeping, command-Keeps, stop, drop) depth 9
    where
      stop :
          (s : Host)
          → Others s
          → Others (record s { domains = set_state p.name shut_off s.domains })
      stop s k = record {
        domains = λ n e. lookup-set_state n p.name shut_off s.domains e ∙ k.domains n e;
        networks = k.networks;
        tables = k.tables;
        folders = k.folders;
      }

      drop : (s : Host) → Others s → Others (record s { domains = undefine p.name s.domains })
      drop s k = record {
        domains = λ n e. lookup-undefine n p.name s.domains e ∙ k.domains n e;
        networks = k.networks;
        tables = k.tables;
        folders = k.folders;
      }

  pub destroy_network-Keeps :
      (o : Option String) → p.network ≡ o → Keeps Others (destroy_network outcome o)
  unfolding destroy_network undo_network
  destroy_network-Keeps none e = search (keeping)
  destroy_network-Keeps (some network) e = search (keeping, command-Keeps, stop, drop) depth 9
    where
      other : (n : String) → p.network ≢ some n → network ≢ n
      other n d q = d (e ∙ ap some q)

      stop :
          (s : Host)
          → Others s
          → Others (record s { networks = set_state network false s.networks })
      stop s k = record {
        domains = k.domains;
        networks = λ n d. lookup-set_state n network false s.networks (other n d) ∙ k.networks n d;
        tables = k.tables;
        folders = k.folders;
      }

      drop : (s : Host) → Others s → Others (record s { networks = without network s.networks })
      drop s k = record {
        domains = k.domains;
        networks = λ n d. lookup-without n network s.networks (other n d) ∙ k.networks n d;
        tables = k.tables;
        folders = k.folders;
      }

  pub remove_firewall-Keeps : Keeps Others (remove_firewall outcome p.table)
  unfolding remove_firewall
  remove_firewall-Keeps = search (keeping, command-Keeps, drop) depth 9
    where
      drop : (s : Host) → Others s → Others (record s { tables = without p.table s.tables })
      drop s k = record {
        domains = k.domains;
        networks = k.networks;
        tables = λ n d. lookup-without n p.table s.tables d ∙ k.tables n d;
        folders = k.folders;
      }

  pub unmount-Keeps : Keeps Others (unmount outcome p.directory)
  unfolding unmount
  unmount-Keeps = search (keeping, command-Keeps, free) depth 9
    where
      free :
          (s : Host)
          → Others s
          → Others (record s { folders = set_state p.directory false s.folders })
      free s k = record {
        domains = k.domains;
        networks = k.networks;
        tables = k.tables;
        folders = λ n d. lookup-set_state n p.directory false s.folders d ∙ k.folders n d;
      }

  pub remove_folder-Keeps : Keeps Others (remove_folder outcome p.directory)
  unfolding remove_folder
  remove_folder-Keeps = search (keeping, command-Keeps, drop) depth 9
    where
      drop : (s : Host) → Others s → Others (record s { folders = without p.directory s.folders })
      drop s k = record {
        domains = k.domains;
        networks = k.networks;
        tables = k.tables;
        folders = λ n d. lookup-without n p.directory s.folders d ∙ k.folders n d;
      }
