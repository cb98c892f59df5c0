-- ===== src/Emails.antt =====
-- frontend/src/app/emails: the states of an e-mail (email-state.ts), the actions on the list of a
-- campaign, and the sending of several e-mails.
pub mod States
pub mod List
pub mod Sending
mod Tests
