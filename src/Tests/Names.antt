-- ===== src/Tests/Names.antt =====
-- Identifiers and domain names at concrete values.
use ad_guard_dnscli.Base.{
  ◌↔◌, List, [], ◌∷◌, some, ◌≡◌, refl, arith, GoString, str, trim_suffix, replace_all, index,
  bytes_eq,
}
use ad_guard_dnscli.Errors.{ok}
use ad_guard_dnscli.Client.HumanId.{
  new_human_id, fqdn_to_human_id, new_profile_id, new_device_type, check_printable,
}
use ad_guard_dnscli.Client.HumanId.Laws.{IsHumanId}
use ad_guard_dnscli.Client.HumanId.Made.{IsUndotted, IsCut, IsHyphened, fqdn_to_human_id_iff}
use ad_guard_dnscli.Client.Domains.Joined.{AreLabels, compare_domains-unlabels}
use ad_guard_dnscli.Client.Domains.{compare_domains, compare_loop}
use ad_guard_dnscli.Client.Domains.Labels.{NoLeadingDot}
use ad_guard_dnscli.Client.Domains.Order.{compare_labels, unlabels, compare_loop-ends}
use ad_guard_dnscli.Client.Autodevice.ExtId.{AreParts, ext_id-injective}
use ad_guard_dnscli.Tests.Library.{library}

abbrev laptop : GoString
laptop = str "my-laptop"

abbrev host : GoString
host = str "pc.lan"

fqdn_ok : fqdn_to_human_id library (str "pc.lan.") ≡ ok (str "pc-lan")
unfolding fqdn_to_human_id trim_suffix new_human_id replace_all index
fqdn_ok = refl

fqdn_to_human_id_iff_example : (fqdn_to_human_id library (str "pc.lan.") ≡ ok (str "pc-lan")) ↔ (
    (domain : GoString) × (kept : GoString) × IsUndotted (str "pc.lan.") domain
    × IsCut domain kept
    × IsHyphened kept (str "pc-lan")
    × IsHumanId library (str "pc-lan"))
fqdn_to_human_id_iff_example = fqdn_to_human_id_iff library (str "pc.lan.") (str "pc-lan")

host_untrimmed : trim_suffix host (str ".") ≡ host
unfolding trim_suffix
host_untrimmed = refl

abbrev profile : GoString
profile = str "ab12cd34"

compare_loop-ends_example :
    compare_loop 100 host (str "lan") ≡ some (compare_domains host (str "lan"))
compare_loop-ends_example = compare_loop-ends 100 host (str "lan") (omega arith)

abbrev pc_labels : List GoString
pc_labels = str "lan" ∷ str "pc" ∷ []

pc-AreLabels : AreLabels pc_labels
pc-AreLabels = (
  ((λ e. ground (arith, e)), ((λ e. ground (arith, e)), ((λ e. ground (arith, e)), tt))),
  ((λ e. ground (arith, e)), ((λ e. ground (arith, e)), ((λ e. ground (arith, e)), tt))),
)

lan-AreLabels : AreLabels (str "lan" ∷ [])
lan-AreLabels = (
  (λ e. ground (arith, e)),
  ((λ e. ground (arith, e)), ((λ e. ground (arith, e)), ((λ e. ground (arith, e)), tt))),
)

compare_domains-unlabels_example :
    compare_domains (unlabels pc_labels) (unlabels (str "lan" ∷ []))
    ≡ compare_labels pc_labels (str "lan" ∷ [])
compare_domains-unlabels_example =
    compare_domains-unlabels pc_labels (str "lan" ∷ []) pc-AreLabels lan-AreLabels

lan_no_dot : NoLeadingDot (str "lan")
lan_no_dot = λ e. absurd (ground (arith, e))

parts : AreParts library (str "ios") profile laptop
unfolding new_device_type new_profile_id new_human_id bytes_eq check_printable index
parts = record { type_ok = refl; profile_ok = refl; id_ok = refl }

ext_id-injective_example : (str "ios" ≡ str "ios") × (profile ≡ profile) × (laptop ≡ laptop)
ext_id-injective_example =
    ext_id-injective library (str "ios") profile laptop (str "ios") profile laptop parts parts refl
