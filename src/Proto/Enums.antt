-- ===== src/Proto/Enums.antt =====
-- proto/gen/darta/v1: the enumerations of the messages, and their `String()`. A proto3 enumeration is
-- open, so a number without a name is a value too, and its text is the number.
use e_palika.Prelude.{String}
use e_palika.Prelude.Int.{ℤ}
use e_palika.Prelude.Text.{int_text}

pub data Scope : Type 0 where
  unspecified municipality ward : Scope
  unnamed : ℤ → Scope

unfoldable pub scope_text : Scope → String
unfolding int_text
scope_text Scope.unspecified = "SCOPE_UNSPECIFIED"
scope_text Scope.municipality = "SCOPE_MUNICIPALITY"
scope_text Scope.ward = "SCOPE_WARD"
scope_text (Scope.unnamed n) = int_text n

pub data Priority : Type 0 where
  unspecified low medium high urgent : Priority
  unnamed : ℤ → Priority

unfoldable pub priority_text : Priority → String
unfolding int_text
priority_text Priority.unspecified = "PRIORITY_UNSPECIFIED"
priority_text Priority.low = "PRIORITY_LOW"
priority_text Priority.medium = "PRIORITY_MEDIUM"
priority_text Priority.high = "PRIORITY_HIGH"
priority_text Priority.urgent = "PRIORITY_URGENT"
priority_text (Priority.unnamed n) = int_text n

pub data IntakeChannel : Type 0 where
  unspecified counter postal email edarta_portal courier : IntakeChannel
  unnamed : ℤ → IntakeChannel

unfoldable pub intake_channel_text : IntakeChannel → String
unfolding int_text
intake_channel_text IntakeChannel.unspecified = "INTAKE_CHANNEL_UNSPECIFIED"
intake_channel_text IntakeChannel.counter = "INTAKE_CHANNEL_COUNTER"
intake_channel_text IntakeChannel.postal = "INTAKE_CHANNEL_POSTAL"
intake_channel_text IntakeChannel.email = "INTAKE_CHANNEL_EMAIL"
intake_channel_text IntakeChannel.edarta_portal = "INTAKE_CHANNEL_EDARTA_PORTAL"
intake_channel_text IntakeChannel.courier = "INTAKE_CHANNEL_COURIER"
intake_channel_text (IntakeChannel.unnamed n) = int_text n

pub data DispatchChannel : Type 0 where
  unspecified postal courier email hand_delivery edarta_portal : DispatchChannel
  unnamed : ℤ → DispatchChannel

unfoldable pub dispatch_channel_text : DispatchChannel → String
unfolding int_text
dispatch_channel_text DispatchChannel.unspecified = "DISPATCH_CHANNEL_UNSPECIFIED"
dispatch_channel_text DispatchChannel.postal = "DISPATCH_CHANNEL_POSTAL"
dispatch_channel_text DispatchChannel.courier = "DISPATCH_CHANNEL_COURIER"
dispatch_channel_text DispatchChannel.email = "DISPATCH_CHANNEL_EMAIL"
dispatch_channel_text DispatchChannel.hand_delivery = "DISPATCH_CHANNEL_HAND_DELIVERY"
dispatch_channel_text DispatchChannel.edarta_portal = "DISPATCH_CHANNEL_EDARTA_PORTAL"
dispatch_channel_text (DispatchChannel.unnamed n) = int_text n

pub data DartaStatus : Type 0 where
  unspecified draft pending_review classification number_reserved registered voided : DartaStatus
  scanned metadata_enriched digitally_archived assigned in_review_by_section : DartaStatus
  needs_clarification accepted action_taken response_issued ack_requested ack_received : DartaStatus
  superseded closed : DartaStatus
  unnamed : ℤ → DartaStatus

unfoldable pub darta_status_text : DartaStatus → String
unfolding int_text
darta_status_text DartaStatus.unspecified = "DARTA_STATUS_UNSPECIFIED"
darta_status_text DartaStatus.draft = "DARTA_STATUS_DRAFT"
darta_status_text DartaStatus.pending_review = "DARTA_STATUS_PENDING_REVIEW"
darta_status_text DartaStatus.classification = "DARTA_STATUS_CLASSIFICATION"
darta_status_text DartaStatus.number_reserved = "DARTA_STATUS_NUMBER_RESERVED"
darta_status_text DartaStatus.registered = "DARTA_STATUS_REGISTERED"
darta_status_text DartaStatus.voided = "DARTA_STATUS_VOIDED"
darta_status_text DartaStatus.scanned = "DARTA_STATUS_SCANNED"
darta_status_text DartaStatus.metadata_enriched = "DARTA_STATUS_METADATA_ENRICHED"
darta_status_text DartaStatus.digitally_archived = "DARTA_STATUS_DIGITALLY_ARCHIVED"
darta_status_text DartaStatus.assigned = "DARTA_STATUS_ASSIGNED"
darta_status_text DartaStatus.in_review_by_section = "DARTA_STATUS_IN_REVIEW_BY_SECTION"
darta_status_text DartaStatus.needs_clarification = "DARTA_STATUS_NEEDS_CLARIFICATION"
darta_status_text DartaStatus.accepted = "DARTA_STATUS_ACCEPTED"
darta_status_text DartaStatus.action_taken = "DARTA_STATUS_ACTION_TAKEN"
darta_status_text DartaStatus.response_issued = "DARTA_STATUS_RESPONSE_ISSUED"
darta_status_text DartaStatus.ack_requested = "DARTA_STATUS_ACK_REQUESTED"
darta_status_text DartaStatus.ack_received = "DARTA_STATUS_ACK_RECEIVED"
darta_status_text DartaStatus.superseded = "DARTA_STATUS_SUPERSEDED"
darta_status_text DartaStatus.closed = "DARTA_STATUS_CLOSED"
darta_status_text (DartaStatus.unnamed n) = int_text n

pub data ApplicantType : Type 0 where
  unspecified citizen organization government_office other : ApplicantType
  unnamed : ℤ → ApplicantType

unfoldable pub applicant_type_text : ApplicantType → String
unfolding int_text
applicant_type_text ApplicantType.unspecified = "APPLICANT_TYPE_UNSPECIFIED"
applicant_type_text ApplicantType.citizen = "APPLICANT_TYPE_CITIZEN"
applicant_type_text ApplicantType.organization = "APPLICANT_TYPE_ORGANIZATION"
applicant_type_text ApplicantType.government_office = "APPLICANT_TYPE_GOVERNMENT_OFFICE"
applicant_type_text ApplicantType.other = "APPLICANT_TYPE_OTHER"
applicant_type_text (ApplicantType.unnamed n) = int_text n

pub data DartaReviewDecision : Type 0 where
  unspecified approve_review edit_required : DartaReviewDecision
  unnamed : ℤ → DartaReviewDecision

unfoldable pub darta_review_decision_text : DartaReviewDecision → String
unfolding int_text
darta_review_decision_text DartaReviewDecision.unspecified = "DARTA_REVIEW_DECISION_UNSPECIFIED"
darta_review_decision_text DartaReviewDecision.approve_review =
    "DARTA_REVIEW_DECISION_APPROVE_REVIEW"
darta_review_decision_text DartaReviewDecision.edit_required = "DARTA_REVIEW_DECISION_EDIT_REQUIRED"
darta_review_decision_text (DartaReviewDecision.unnamed n) = int_text n

pub data ChalaniStatus : Type 0 where
  unspecified draft pending_review pending_approval approved number_reserved registered :
      ChalaniStatus
  signed sealed dispatched in_transit acknowledged returned_undelivered delivered voided :
      ChalaniStatus
  superseded closed : ChalaniStatus
  unnamed : ℤ → ChalaniStatus

unfoldable pub chalani_status_text : ChalaniStatus → String
unfolding int_text
chalani_status_text ChalaniStatus.unspecified = "CHALANI_STATUS_UNSPECIFIED"
chalani_status_text ChalaniStatus.draft = "CHALANI_STATUS_DRAFT"
chalani_status_text ChalaniStatus.pending_review = "CHALANI_STATUS_PENDING_REVIEW"
chalani_status_text ChalaniStatus.pending_approval = "CHALANI_STATUS_PENDING_APPROVAL"
chalani_status_text ChalaniStatus.approved = "CHALANI_STATUS_APPROVED"
chalani_status_text ChalaniStatus.number_reserved = "CHALANI_STATUS_NUMBER_RESERVED"
chalani_status_text ChalaniStatus.registered = "CHALANI_STATUS_REGISTERED"
chalani_status_text ChalaniStatus.signed = "CHALANI_STATUS_SIGNED"
chalani_status_text ChalaniStatus.sealed = "CHALANI_STATUS_SEALED"
chalani_status_text ChalaniStatus.dispatched = "CHALANI_STATUS_DISPATCHED"
chalani_status_text ChalaniStatus.in_transit = "CHALANI_STATUS_IN_TRANSIT"
chalani_status_text ChalaniStatus.acknowledged = "CHALANI_STATUS_ACKNOWLEDGED"
chalani_status_text ChalaniStatus.returned_undelivered = "CHALANI_STATUS_RETURNED_UNDELIVERED"
chalani_status_text ChalaniStatus.delivered = "CHALANI_STATUS_DELIVERED"
chalani_status_text ChalaniStatus.voided = "CHALANI_STATUS_VOIDED"
chalani_status_text ChalaniStatus.superseded = "CHALANI_STATUS_SUPERSEDED"
chalani_status_text ChalaniStatus.closed = "CHALANI_STATUS_CLOSED"
chalani_status_text (ChalaniStatus.unnamed n) = int_text n

pub data RecipientType : Type 0 where
  unspecified citizen organization government_office other : RecipientType
  unnamed : ℤ → RecipientType

unfoldable pub recipient_type_text : RecipientType → String
unfolding int_text
recipient_type_text RecipientType.unspecified = "RECIPIENT_TYPE_UNSPECIFIED"
recipient_type_text RecipientType.citizen = "RECIPIENT_TYPE_CITIZEN"
recipient_type_text RecipientType.organization = "RECIPIENT_TYPE_ORGANIZATION"
recipient_type_text RecipientType.government_office = "RECIPIENT_TYPE_GOVERNMENT_OFFICE"
recipient_type_text RecipientType.other = "RECIPIENT_TYPE_OTHER"
recipient_type_text (RecipientType.unnamed n) = int_text n
