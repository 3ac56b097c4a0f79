-- ===== src/Provision/Tracked.antt =====
-- internal/provision: every step of a run but the first and the last keeps its variables in step
-- with the calls made.
use encedo_wg_hsm.Common.{
  ℕ, zero, suc, ◌≡◌, refl, Bool, true, false, Option, none, some, List, [], ◌∷◌, Bytes, Result, ok,
  err,
}
use encedo_wg_hsm.Hem.{HemError, KeyEntry}
use encedo_wg_hsm.Config.Identity.{find_entry}
use encedo_wg_hsm.Config.Records.{psk_context}
use encedo_wg_hsm.Effect.{
  update, Keeps, Keeps-pure, Keeps-fail, Keeps-bind, Keeps-update, keeps_rules,
}
use encedo_wg_hsm.Provision.Spec.{PeerSpec, Params, ProvisionError}
use encedo_wg_hsm.Provision.Calls.{Call, get_key, wrap_key, import_key, Device, World, Act, logged}
use encedo_wg_hsm.Provision.Place.{
  stored_record, after_page, after_answer, read_loop, read_peer_record, import_peer, settle, placed,
  place_peer,
}
use encedo_wg_hsm.Provision.Run.{
  wrap_psk, stored_or_lost, record_in_use, place_one, place_all, identity_key,
}
use encedo_wg_hsm.Provision.Rollback.{plain, IsTracked, logged-IsTracked, Keeps-request}

module _ (size : ℕ) (sha1 : Bytes → Bytes) (device : Device) where
  abbrev T : World → Type 0
  T = IsTracked device

  Keeps-stored_record : (e : KeyEntry) → Keeps T (stored_record size sha1 device e)
  unfolding stored_record
  Keeps-stored_record e = search keeps_rules

  Keeps-after_page :
      (more : ℕ → Act (Option Bytes)) (offset total : ℕ) (page : List KeyEntry)
      (found : Option KeyEntry)
      → ((n : ℕ) → Keeps T (more n))
      → Keeps T (after_page size sha1 device more offset total page found)
  unfolding after_page
  Keeps-after_page more offset total page (some e) h = Keeps-stored_record e
  Keeps-after_page more offset total page none h = search (keeps_rules, h)

  Keeps-after_answer :
      (again : Bytes → Act (Option Bytes)) (more : ℕ → Act (Option Bytes)) (kid token : Bytes)
      (offset : ℕ) (answer : Result HemError (ℕ × List KeyEntry))
      → ((t : Bytes) → Keeps T (again t))
      → ((n : ℕ) → Keeps T (more n))
      → Keeps T (after_answer size sha1 device again more kid token offset answer)
  unfolding after_answer
  Keeps-after_answer again more kid token offset (err e) h k = search (keeps_rules, h)
  Keeps-after_answer again more kid token offset (ok (total, page)) h k =
      Keeps-after_page more offset total page (find_entry kid page) k

  Keeps-read_loop :
      (fuel : ℕ) (kid token : Bytes) (offset : ℕ)
      → Keeps T (read_loop size sha1 device fuel kid token offset)
  unfolding read_loop
  Keeps-read_loop zero kid token offset = Keeps-fail _
  Keeps-read_loop (suc fuel) kid token offset =
      Keeps-bind _ _ (Keeps-request device (Call.search offset) _ refl) (λ answer.
        Keeps-after_answer _ _ kid token offset answer (λ t. Keeps-read_loop fuel kid t offset)
          (λ n. Keeps-read_loop fuel kid token n))

  Keeps-import_peer : (p : PeerSpec) (want : Bytes) → Keeps T (import_peer size sha1 device p want)
  unfolding import_peer
  Keeps-import_peer p want =
      search (keeps_rules, Keeps-request device (import_key p.label p.pub_key want) _ refl)

  Keeps-settle :
      (kid : Bytes) (adopt : Bool) (want : Bytes) (current : Option Bytes)
      → Keeps T (settle size sha1 device kid adopt want current)
  unfolding settle
  Keeps-settle kid adopt want none = Keeps-fail _
  Keeps-settle kid adopt want (some current) = search keeps_rules

  Keeps-placed :
      (fuel : ℕ) (p : PeerSpec) (want : Bytes) (adopt : Bool) (r : Result HemError (Bytes × Bytes))
      → Keeps T (placed size sha1 device fuel p want adopt r)
  unfolding placed read_peer_record
  Keeps-placed fuel p want adopt (err e) = search (keeps_rules, Keeps-import_peer)
  Keeps-placed fuel p want adopt (ok (kind, key)) =
      search (keeps_rules, Keeps-read_loop, Keeps-settle)

  Keeps-place_peer :
      (fuel : ℕ) (p : PeerSpec) (want : Bytes) (adopt : Bool)
      → Keeps T (place_peer size sha1 device fuel p want adopt)
  unfolding place_peer
  Keeps-place_peer fuel p want adopt =
      search (keeps_rules, Keeps-placed, Keeps-request device (get_key _) _ refl)

  Keeps-wrap_psk :
      (fuel : ℕ) (if_kid peer_kid : Bytes) (psk : Option Bytes)
      → Keeps T (wrap_psk fuel size sha1 device if_kid peer_kid psk)
  unfolding wrap_psk
  Keeps-wrap_psk fuel if_kid peer_kid none = Keeps-pure none
  Keeps-wrap_psk fuel if_kid peer_kid (some psk) =
      search (keeps_rules, Keeps-request device (wrap_key if_kid psk (psk_context peer_kid)) _ refl)

  Keeps-stored_or_lost :
      (fuel : ℕ) (r : Option Bytes) → Keeps T (stored_or_lost fuel size sha1 device r)
  unfolding stored_or_lost
  Keeps-stored_or_lost fuel none = Keeps-fail _
  Keeps-stored_or_lost fuel (some rec) = Keeps-pure rec

  Keeps-record_in_use :
      (fuel : ℕ) (spec : PeerSpec) (enc : Bytes) (adopted : Bool)
      → Keeps T (record_in_use fuel size sha1 device spec enc adopted)
  unfolding record_in_use read_peer_record
  Keeps-record_in_use fuel spec enc true =
      Keeps-bind _ _ (Keeps-read_loop fuel _ _ _) (Keeps-stored_or_lost fuel)
  Keeps-record_in_use fuel spec enc false =
      Keeps-bind _ _
        (Keeps-update _
          (λ w t. record { rollback = t.rollback; made_one = t.made_one; wrote_it = t.wrote_it }))
        (λ done. Keeps-pure enc)

  Keeps-place_one :
      (fuel : ℕ) (p : Params) (if_kid : Bytes) (spec : PeerSpec)
      → Keeps T (place_one fuel size sha1 device p if_kid spec)
  unfolding place_one
  Keeps-place_one fuel p if_kid spec =
      search (keeps_rules, Keeps-wrap_psk, Keeps-place_peer, Keeps-record_in_use) depth 14

  pub Keeps-place_all :
      (fuel : ℕ) (p : Params) (if_kid : Bytes) (specs : List PeerSpec)
      → Keeps T (place_all fuel size sha1 device p if_kid specs)
  unfolding place_all
  Keeps-place_all fuel p if_kid [] = Keeps-pure []
  Keeps-place_all fuel p if_kid (spec ∷ specs) =
      Keeps-bind _ _ (Keeps-place_one fuel p if_kid spec)
        (λ r. Keeps-bind _ _ (Keeps-place_all fuel p if_kid specs) (λ rs. Keeps-pure _))

  pub Keeps-identity_key :
      (fuel : ℕ) (if_kid : Bytes) → Keeps T (identity_key fuel size sha1 device if_kid)
  unfolding identity_key
  Keeps-identity_key fuel if_kid =
      search (keeps_rules, Keeps-request device (get_key if_kid) _ refl) depth 14

  pub Keeps-logged :
      (c : Call) → (plain device c ≡ true) → Keeps {E = ProvisionError} T (update (logged c))
  Keeps-logged c h = Keeps-update (logged c) (λ w t. logged-IsTracked device c w h t)
