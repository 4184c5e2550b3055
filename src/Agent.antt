-- ===== src/Agent.antt =====
-- dtnd7-go/pkg/application_agent: the mailboxes of the local applications.
pub mod Mailbox
pub mod Bank
pub mod Manager
pub mod Rest
mod Examples
