-- ===== src/Broker/Host.antt =====
-- `destroy`, `assert_absent` and `_destroy_orphan_key` of
-- apps/workstation-broker/src/workstation_broker/server.py, on what the host has: libvirt's domains
-- with their states, its networks with whether they run, the nft tables, and the folders of the
-- attempts with whether their disk is mounted. Every command may fail, those that only ask too, by
-- all that the host has then.
use gpt_trace_extractor_for.Base.{
  String, Option, none, some, Bool, true, false, not, ◌&&◌, ◌||◌, List, [], ◌∷◌, ◌==◌, string_eq,
  if◌then◌else◌,
}
use gpt_trace_extractor_for.Exceptions.{Exn, value_error, Outcome, ok, raised}
use gpt_trace_extractor_for.Exec.{Exec, return, throw, from, modify, ◌>>=◌, ◌>>◌, when}

-- resources of one kind by name, with a state
abbrev pub Resources : Type 0 → Type 0
Resources S = List (String × S)

module _ {S : Type 0} where
  unfoldable pub lookup : String → Resources S → Option S
  lookup name [] = none
  lookup name ((n, state) ∷ rest) = if n == name then some state else lookup name rest

  unfoldable pub without : String → Resources S → Resources S
  without name [] = []
  without name ((n, state) ∷ rest) =
      let others = without name rest in if n == name then others else (n, state) ∷ others

  unfoldable pub set_state : String → S → Resources S → Resources S
  set_state name state [] = []
  set_state name state ((n, old) ∷ rest) =
      let others = set_state name state rest in
      if n == name then (n, state) ∷ others else (n, old) ∷ others

  abbrev pub is_there : Option S → Bool
  is_there none = false
  is_there (some state) = true

-- `domstate`: "running", another active state such as "paused", or not active
pub data DomainState : Type 0 where
  running active shut_off : DomainState

abbrev pub is_running : Option DomainState → Bool
is_running (some running) = true
is_running (some active) = false
is_running (some shut_off) = false
is_running none = false

-- libvirt's `undefine` keeps a domain that is active, which is then transient.
abbrev pub drop_inactive : String × DomainState → Resources DomainState → Resources DomainState
drop_inactive (n, shut_off) others = others
drop_inactive (n, running) others = (n, running) ∷ others
drop_inactive (n, active) others = (n, active) ∷ others

unfoldable pub undefine : String → Resources DomainState → Resources DomainState
undefine name [] = []
undefine name ((n, state) ∷ rest) =
    let others = undefine name rest in
    if n == name then drop_inactive (n, state) others else (n, state) ∷ others

-- a network is active, or a disk is mounted
abbrev pub is_on : Option Bool → Bool
is_on none = false
is_on (some state) = state

pub record Host : Type 0 where
  pub domains : Resources DomainState
  pub networks : Resources Bool
  pub tables : Resources Bool
  pub folders : Resources Bool

pub data Command : Type 0 where
  virsh_list virsh_domstate net_list net_list_active nft_list : Command
  virsh_destroy virsh_undefine net_destroy net_undefine nft_delete umount rmtree : Command

-- the names of one attempt; an evaluator has no network
pub record Paths : Type 0 where
  pub name : String
  pub network : Option String
  pub table : String
  pub directory : String

abbrev pub has_network : Option String → Host → Bool
has_network none s = false
has_network (some network) s = is_there (lookup network s.networks)

abbrev pub remaining : Exn
remaining = value_error "attempt resources remain"

abbrev succeeded : Outcome (Unit {0}) → Bool
succeeded (ok u) = true
succeeded (raised e) = false

module _ (outcome : Command → Host → Outcome (Unit {0})) where
  unfoldable pub command : Command → (Host → Host) → Exec Host (Unit {0})
  command c effect = from (outcome c) >> modify effect

  -- `nft list table` ends with 0; any other exit is read as absence.
  unfoldable pub is_listed : String → Host → Bool
  is_listed table s = succeeded (outcome nft_list s) && is_there (lookup table s.tables)

  -- the conditions of the test, in its order, up to the first that holds
  unfoldable pub assert_absent : Paths → Exec Host (Unit {0})
  unfolding is_listed
  assert_absent p = do
    found ← from (λ s. ok (is_there (lookup p.directory s.folders) || is_listed p.table s))
    if found then throw remaining else (do
      from (outcome virsh_list)
      known ← from (λ s. ok (is_there (lookup p.name s.domains)))
      if known then throw remaining else (do
        from (outcome net_list)
        linked ← from (λ s. ok (has_network p.network s))
        when linked (throw remaining)))

  unfoldable pub destroy_domain : String → Exec Host (Unit {0})
  destroy_domain name = do
    from (outcome virsh_list)
    state ← from (λ s. ok (lookup name s.domains))
    when (is_there state) (do
      from (outcome virsh_domstate)
      when (is_running state)
          (command virsh_destroy (λ s. record s { domains = set_state name shut_off s.domains }))
      command virsh_undefine (λ s. record s { domains = undefine name s.domains }))

  unfoldable pub undo_network : Option String → Exec Host (Unit {0})
  undo_network none = return tt
  undo_network (some network) = do
    state ← from (λ s. ok (lookup network s.networks))
    when (is_there state) (do
      from (outcome net_list_active)
      when (is_on state)
          (command net_destroy (λ s. record s { networks = set_state network false s.networks }))
      command net_undefine (λ s. record s { networks = without network s.networks }))

  unfoldable pub destroy_network : Option String → Exec Host (Unit {0})
  unfolding undo_network
  destroy_network network = from (outcome net_list) >> undo_network network

  -- `_remove_firewall_key`
  unfoldable pub remove_firewall : String → Exec Host (Unit {0})
  unfolding is_listed
  remove_firewall table = do
    listed ← from (λ s. ok (is_listed table s))
    when listed (command nft_delete (λ s. record s { tables = without table s.tables }))

  unfoldable pub unmount : String → Exec Host (Unit {0})
  unmount directory = do
    state ← from (λ s. ok (lookup directory s.folders))
    when (is_on state)
        (command umount (λ s. record s { folders = set_state directory false s.folders }))

  unfoldable pub remove_folder : String → Exec Host (Unit {0})
  remove_folder directory = do
    state ← from (λ s. ok (lookup directory s.folders))
    when (is_there state) (command rmtree (λ s. record s { folders = without directory s.folders }))

  unfoldable pub tear_down : Paths → Exec Host (Unit {0})
  tear_down p = do
    destroy_domain p.name
    destroy_network p.network
    remove_firewall p.table
    unmount p.directory
    remove_folder p.directory
    assert_absent p

  -- a domain without a folder of its attempt
  unfoldable pub refuse_unowned : String → Exec Host (Unit {0})
  refuse_unowned name = do
    from (outcome virsh_list)
    known ← from (λ s. ok (is_there (lookup name s.domains)))
    when known (throw (value_error "unowned domain exists; refusing blind deletion"))

  -- `read` is `_read` of the attempt without its firewall
  unfoldable pub destroy : (Host → Outcome (Unit {0})) → Bool → Paths → Exec Host (Unit {0})
  unfolding refuse_unowned
  destroy read strict p = do
    there ← from (λ s. ok (is_there (lookup p.directory s.folders)))
    if there && strict then from read else when strict (refuse_unowned p.name)
    if not there && strict then return tt else tear_down p

  -- `_destroy_orphan_key`, with the folder where there is one
  unfoldable pub destroy_orphan_key : Paths → Bool → Exec Host (Unit {0})
  destroy_orphan_key p with_folder = do
    destroy_domain p.name
    destroy_network p.network
    remove_firewall p.table
    when with_folder (unmount p.directory >> remove_folder p.directory)
