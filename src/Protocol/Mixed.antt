-- ===== src/Protocol/Mixed.antt =====
-- A client while an operation of scripts/aimili_xui_protocol_transaction.py is pending, and what the checks
-- and the restoring of clients make of it.
use aimili_gateway.Prelude.{
  Text, ◌≡◌, ◌↔◌, refl, ap, true, ◌⊎◌, Option, none, some, List, [], ◌∷◌, arith, text_eq_iff,
  text_eq_refl, ==_iff, inl,
}
use aimili_gateway.Protocol.Types.{Columns, Client, Template}
use aimili_gateway.Protocol.Database.{
  same_value, same_columns, auth_update, add_client, restored_auth, restored_flow, put_restored,
  restore_client, restore_clients, auth_matches, clients_match, auth_within, clients_within,
}

pub same_value_iff : (s t : Option Text) → (same_value s t ≡ true) ↔ (s ≡ t)
unfolding same_value
same_value_iff none none = (λ _. refl, λ _. refl)
same_value_iff none (some t) = (λ h. cc, λ h. cc)
same_value_iff (some s) none = (λ h. cc, λ h. cc)
same_value_iff (some s) (some t) = ground (arith, text_eq_iff s t)

pub same_columns_sound : (a b : Columns) → same_columns a b ≡ true → a ≡ b
unfolding same_columns
same_columns_sound a b h = ground (
  arith,
  text_eq_iff a.protocol b.protocol,
  text_eq_iff a.settings b.settings,
  text_eq_iff a.stream_settings b.stream_settings,
  text_eq_iff a.sniffing b.sniffing,
  ==_iff a.disable_flow b.disable_flow,
)

pub same_columns_refl : (a : Columns) → same_columns a a ≡ true
unfolding same_columns
same_columns_refl a = ground (
  arith,
  text_eq_refl a.protocol,
  text_eq_refl a.settings,
  text_eq_refl a.stream_settings,
  text_eq_refl a.sniffing,
)

same_value_refl : (s : Option Text) → same_value s s ≡ true
same_value_refl s = (same_value_iff s s).1 refl

-- The credential of a client while an operation is pending, by the update that the operation has for it.
abbrev pub MixedAuth : Option Text → Option Text → Option Text → Type 0
MixedAuth none old current = current ≡ old
MixedAuth (some auth) old current = (current ≡ old) ⊎ (current ≡ some auth)

-- A client while an operation is pending: as it was, or as the operation made it, in each of its parts.
pub record Mixed (t : Template) (o c : Client) : Type 0 where
  pub same_id : c.id ≡ o.id
  pub flow : (c.flow_override ≡ o.flow_override) ⊎ (c.flow_override ≡ some t.flow_override)
  pub mixed_auth : MixedAuth (auth_update t.client_auth_updates o.id) o.auth c.auth

abbrev pub AllMixed : Template → List Client → List Client → Type 0
AllMixed t [] [] = Unit
AllMixed t [] (c ∷ cs) = ⊥
AllMixed t (o ∷ os) [] = ⊥
AllMixed t (o ∷ os) (c ∷ cs) = Mixed t o c × AllMixed t os cs

old-Mixed-auth : (u o : Option Text) → MixedAuth u o o
old-Mixed-auth none o = refl
old-Mixed-auth (some a) o = inl refl

old-Mixed : (t : Template) (o : Client) → Mixed t o o
old-Mixed t o = record { same_id = refl; flow = inl refl; mixed_auth = old-Mixed-auth _ o.auth }

pub old-AllMixed : (t : Template) (os : List Client) → AllMixed t os os
old-AllMixed t [] = tt
old-AllMixed t (o ∷ os) = (old-Mixed t o, old-AllMixed t os)

restored-auth : (u o c : Option Text) → MixedAuth u o c → restored_auth u o c ≡ some o
unfolding restored_auth
restored-auth none o c h = ap some h
restored-auth (some a) o c h = ground (arith, h, same_value_iff c o, same_value_iff c (some a))

restored-flow :
    (f : Text) (o c : Option Text) → (c ≡ o) ⊎ (c ≡ some f) → restored_flow f o c ≡ some o
unfolding restored_flow
restored-flow f o c h = ground (arith, h, same_value_iff c o, same_value_iff c (some f))

restore_one : (t : Template) (o c : Client) → Mixed t o c → restore_client t o c ≡ some o
unfolding restore_client put_restored
restore_one t o c h =
    rw
      (
        h.same_id,
        restored-auth _ o.auth c.auth h.mixed_auth,
        restored-flow t.flow_override o.flow_override c.flow_override h.flow,
      )
      (ground (arith, ==_iff o.id o.id))

pub restore_all :
    (t : Template) (os cs : List Client) → AllMixed t os cs → restore_clients t os cs ≡ some os
unfolding restore_clients add_client
restore_all t [] [] h = refl
restore_all t [] (c ∷ cs) h = elim h [ ]
restore_all t (o ∷ os) [] h = elim h [ ]
restore_all t (o ∷ os) (c ∷ cs) (h, hs) = rw (restore_one t o c h, restore_all t os cs hs) refl

within_auth : (u o c : Option Text) → MixedAuth u o c → auth_within u o c ≡ true
unfolding auth_within
within_auth none o c h = refl
within_auth (some a) o c h = ground (arith, h, same_value_iff c o, same_value_iff c (some a))

pub within_all :
    (t : Template) (os cs : List Client) → AllMixed t os cs → clients_within t os cs ≡ true
unfolding clients_within
within_all t [] [] h = refl
within_all t [] (c ∷ cs) h = elim h [ ]
within_all t (o ∷ os) [] h = elim h [ ]
within_all t (o ∷ os) (c ∷ cs) (h, hs) = ground (
  arith,
  h.same_id,
  h.flow,
  ==_iff c.id o.id,
  same_value_iff c.flow_override o.flow_override,
  same_value_iff c.flow_override (some t.flow_override),
  within_auth _ o.auth c.auth h.mixed_auth,
  within_all t os cs hs,
)

match_auth : (u o c : Option Text) → MixedAuth u o c → auth_matches u o c ≡ true → c ≡ o
unfolding auth_matches
match_auth none o c h e = h
match_auth (some a) o c h e = (same_value_iff c o).0 e

pub match_all :
    (t : Template) (os cs : List Client) → AllMixed t os cs → clients_match t os cs ≡ true → cs ≡ os
unfolding clients_match
match_all t [] [] h e = refl
match_all t [] (c ∷ cs) h e = elim h [ ]
match_all t (o ∷ os) [] h e = elim h [ ]
match_all t (o ∷ os) (c ∷ cs) (h, hs) e =
    let a : c.auth ≡ o.auth = match_auth _ o.auth c.auth h.mixed_auth (ground (arith, e)) in
    let f : c.flow_override ≡ o.flow_override =
      (same_value_iff c.flow_override o.flow_override).0 (ground (arith, e)) in
    let same : c ≡ o = ground (arith, a, f, h.same_id) in
    rw (same, match_all t os cs hs (ground (arith, e))) refl
