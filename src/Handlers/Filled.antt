-- ===== src/Handlers/Filled.antt =====
-- What the client has checked of an offering that it accepts.
use dappctrl.Base.{Option, ◌≡◌, refl, sym, ◌∙◌, ap, ℕ, true, some, find?, ◌==◌, Option}
use dappctrl.Data.{WorkerError, Product, Offering, Template, HexString, Uuid}
use dappctrl.Store.{Db, World, Result, ok, err}
use dappctrl.Store.Frames.{attempt-Keeps, Keeps, >>=-Keeps, frames}
use dappctrl.Store.Ensures.{Keeps-Ensures, Ensures, >>=-Ensures, require-Ensures, pure-Ensures}
use dappctrl.Handlers.Env.{Worker, OfferMessage, OfferingInfo}
use dappctrl.Handlers.Select.{offering_by_hash, find_or}
use dappctrl.Handlers.Events.{LogOffering}
use dappctrl.Handlers.Misc.{template_by_hash}
use dappctrl.Handlers.Fetch.{
  offering_of_message, unless_known, is_client_product, fill_offering_from_msg,
}
use dappctrl.Handlers.Found.{refuse-Ensures, refuse-Keeps, find_or-Ensures}

-- A message that an agent published: the contract has its hash as an active offering, its signature
-- is by the key that it carries, it fits a template of the client, and the client has a product for
-- that template.
pub record IsFilled (h : Worker) (id : Uuid) (block bytes : ℕ) (args : LogOffering) (d : Db)
    (o : Offering) : Type 0 where
  pub info : OfferingInfo
  pub msg : OfferMessage
  pub key : ℕ
  pub template : Template
  pub product : Product
  pub known : h.backend.psc_get_offering_info (h.keccak_hash bytes) ≡ some info
  pub active : info.is_active ≡ true
  pub parsed : h.parse_offering bytes ≡ some msg
  pub key_read : h.to_bytes msg.agent_pub_key ≡ some key
  pub signed : h.is_signed_by key bytes ≡ true
  pub template_found : find? (λ t. t.hash == msg.template_hash) d.templates ≡ some template
  pub valid : h.is_valid_offer template.raw msg ≡ true
  pub product_found : find? (is_client_product template.id) d.products ≡ some product
  pub row :
      o
      ≡ offering_of_message h id
          (h.of_hash args.offering_hash)
          block
          bytes
          args
          msg
          template.id
          product

offering_by_hash-Keeps : (hash : HexString) → Keeps (offering_by_hash hash)
unfolding offering_by_hash
offering_by_hash-Keeps hash = >>=-Keeps _ _ (search frames) λ _. search frames

unless_known-Keeps : (r : Result Offering) → Keeps (unless_known r)
unless_known-Keeps (ok _) = search frames
unless_known-Keeps (err _) = search frames

pub fill-Ensures :
    (h : Worker) (id : Uuid) (block bytes : ℕ) (args : LogOffering) (w : World)
    → Ensures
        (fill_offering_from_msg h id block bytes args)
        w
        (λ o _. IsFilled h id block bytes args w.db o)
unfolding fill_offering_from_msg template_by_hash
fill-Ensures h id block bytes args w =
    >>=-Ensures _ _ _ w (Keeps-Ensures _ w (attempt-Keeps _ (offering_by_hash-Keeps _))) λ r w1 q1.
      >>=-Ensures _ _ _ w1 (Keeps-Ensures _ w1 (unless_known-Keeps r)) λ _ w2 q2.
        >>=-Ensures _ _ _ w2 (refuse-Ensures _ _ w2) λ info w3 q3.
          >>=-Ensures _ _ _ w3 (require-Ensures _ _ w3) λ _ w4 q4.
            >>=-Ensures _ _ _ w4 (refuse-Ensures _ _ w4) λ msg w5 q5.
              >>=-Ensures _ _ _ w5 (refuse-Ensures _ _ w5) λ key w6 q6.
                >>=-Ensures _ _ _ w6 (require-Ensures _ _ w6) λ _ w7 q7.
                  let e = q7.1.db ∙ q6.1.db ∙ q5.1.db ∙ q4.1.db ∙ q3.1.db ∙ q2 ∙ q1 in
                  >>=-Ensures _ _ _ w7 (find_or-Ensures _ _ w7) λ template w8 q8.
                    >>=-Ensures _ _ _ w8 (require-Ensures _ _ w8) λ _ w9 q9.
                      >>=-Ensures _ _ _ w9 (find_or-Ensures _ _ w9) λ product w10 q10.
                        pure-Ensures _ w10 (record {
                          info = info;
                          msg = msg;
                          key = key;
                          template = template;
                          product = product;
                          known = q3.0;
                          active = q4.0;
                          parsed = q5.0;
                          key_read = q6.0;
                          signed = q7.0;
                          template_found =
                              ap (λ d. find? (λ t. t.hash == msg.template_hash) d.templates) (sym e)
                              ∙ q8.0;
                          valid = q9.0;
                          product_found =
                              ap (λ d. find? (is_client_product template.id) d.products)
                                (sym (q9.1.db ∙ q8.1.db ∙ e))
                              ∙ q10.0;
                          row = refl;
                        })

find_or-Keeps : {A : Type 0} (e : WorkerError) (f : Db → Option A) → Keeps (find_or e f)
unfolding find_or
find_or-Keeps e f = >>=-Keeps _ _ (search frames) λ _. search frames

pub fill-Keeps :
    (h : Worker) (id : Uuid) (block bytes : ℕ) (args : LogOffering)
    → Keeps (fill_offering_from_msg h id block bytes args)
unfolding fill_offering_from_msg template_by_hash
fill-Keeps h id block bytes args = >>=-Keeps _ _ (attempt-Keeps _ (offering_by_hash-Keeps _)) λ r.
    >>=-Keeps _ _ (unless_known-Keeps r) λ _. >>=-Keeps _ _ (refuse-Keeps _ _) λ info.
      >>=-Keeps _ _ (search frames) λ _. >>=-Keeps _ _ (refuse-Keeps _ _) λ msg.
        >>=-Keeps _ _ (refuse-Keeps _ _) λ key. >>=-Keeps _ _ (search frames) λ _.
          >>=-Keeps _ _ (find_or-Keeps _ _) λ template.
            >>=-Keeps _ _ (search frames) λ _. >>=-Keeps _ _ (find_or-Keeps _ _) λ _. search frames
