-- ===== src/Examples.antt =====
-- Tests: the definitions run on concrete inputs, and each theorem with hypotheses applied to one
-- where they hold.
mod Lifecycle
mod Evidence
mod Store
mod Histories
mod Leases
mod Ends
mod Starts
mod Cancellations
mod Delivery
mod Github
mod Consumers
mod Attempts
mod States
